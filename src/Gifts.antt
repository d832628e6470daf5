-- ===== src/Gifts.antt =====
-- Gifts: their rows, the service, the jobs and the lock that a claim takes.
pub mod Rows
pub mod Service
pub mod Jobs
pub mod Limits
pub mod Claims
pub mod Moves
pub mod Steps
pub mod Lock
