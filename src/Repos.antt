-- ===== src/Repos.antt =====
-- python/shim-service/src/repos: the repositories over DynamoDB.
pub mod Table
pub mod Lock
pub mod Sequence
pub mod Sessions
pub mod Batch
pub mod Refresh
pub mod Database
pub mod Store
