-- ===== src/Poll.antt =====
-- python/shim-service/src/poll: the groups of workers that poll sessions.
pub mod Group
