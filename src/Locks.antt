-- ===== src/Locks.antt =====
-- backend/app/tasks/locks.py: the lease that keeps scheduled jobs from overlapping.
pub mod Client
pub mod Lock
pub mod Keeps
pub mod Exclusive
mod Examples
