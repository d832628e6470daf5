-- ===== src/Intents.antt =====
-- Deposits and withdrawals: their rows, the orchestrator, the two services and the jobs.
pub mod Rows
pub mod Guard
pub mod Orchestrator
pub mod Deposits
pub mod Withdrawals
pub mod Jobs
pub mod History
