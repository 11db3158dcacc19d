-- ===== src/Trie.antt =====
-- state/immutable-trie: the Merkle-Patricia trie.
pub mod Encoding
pub mod Node
pub mod Edit
pub mod Map
pub mod Commit
mod Tests
