-- ===== src/Types.antt =====
-- types: the types that the parts share. Only the filter of logs has a model of its own.
pub mod Bloom
