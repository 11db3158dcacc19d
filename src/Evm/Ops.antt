-- ===== src/Evm/Ops.antt =====
-- state/runtime/evm/instructions.go: the instructions. Those of the children are the groups of the
-- source; `Call` and `Create` have the handlers that call the host back.
pub mod Arithmetic
pub mod Data
pub mod Context
pub mod Storage
pub mod Flow
pub mod Call
pub mod Create
pub mod Passive
