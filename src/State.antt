-- ===== src/State.antt =====
-- state: the execution of transactions on the world state.
pub mod Gas
mod Tests
pub mod Txn
pub mod Precompiled
pub mod Call
pub mod Transition
pub mod Example
