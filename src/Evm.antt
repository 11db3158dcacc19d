-- ===== src/Evm.antt =====
-- state/runtime/evm: the Ethereum virtual machine.
pub mod State
pub mod Word
pub mod Bitmap
pub mod Ops
pub mod Dispatch
pub mod Run
pub mod Engine
pub mod Example
mod Tests
