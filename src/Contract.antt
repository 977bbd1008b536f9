-- ===== src/Contract.antt =====
-- What a caller of the cache may rely on: the theorems of the operations' bodies, told of the
-- functions that include/cache_engine.h declares.
pub mod Rejects
pub mod Access
pub mod Sequences
pub mod Room
pub mod Counts
pub mod Reference
pub mod Reads
pub mod Writes
pub mod Again
pub mod Scripts
