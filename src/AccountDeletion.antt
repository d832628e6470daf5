-- ===== src/AccountDeletion.antt =====
-- Deleting an account (src/account-deletion, src/jobs/account-deletion-cleanup.job.ts): who may leave,
-- the request and its confirmation, the erasure of the rows, and the job that finishes it outside.
pub mod Rows
pub mod Eligibility
pub mod Blocking
pub mod Scrub
pub mod Requests
pub mod Cleanup
pub mod Forgetting
pub mod Cleaning
pub mod Confirming
pub mod Reconfirming
pub mod Attempts
pub mod Retrying
pub mod Draining
pub mod Partners
pub mod Erasure
pub mod Sparing
