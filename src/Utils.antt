-- ===== src/Utils.antt =====
-- The helpers of python/shim-service/src/utils.
pub mod Dates
pub mod Cache
pub mod Collections
pub mod Throttler
