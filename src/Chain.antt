-- ===== src/Chain.antt =====
-- chain/params.go: the forks of the chain and which of them are active at a block height.
pub mod Forks
mod Tests
