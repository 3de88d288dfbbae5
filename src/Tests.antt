-- ===== src/Tests.antt =====
-- Concrete runs: of the definitions, and of the theorems at inputs that meet their conditions.
mod Locks
mod Sequences
mod Sessions
mod Polls
mod Values
mod Runs
mod Refreshes
mod Stores
mod Queries
mod Throttlers
mod Actives
