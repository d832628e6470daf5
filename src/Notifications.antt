-- ===== src/Notifications.antt =====
-- Push notifications (src/notifications/push-target.ts, src/jobs/push-dispatch.job.ts): which devices an
-- entry of the outbox is for, and the job that sends the entries.
pub mod Rows
pub mod Target
pub mod Precedence
pub mod Ordering
pub mod Dispatch
pub mod Claims
pub mod Attempts
pub mod Finality
pub mod Ending
pub mod Answers
pub mod Progress
