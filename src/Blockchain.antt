-- ===== src/Blockchain.antt =====
-- blockchain: the chain of blocks.
pub mod GasLimit
mod Tests
