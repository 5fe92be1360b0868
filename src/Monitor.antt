-- ===== src/Monitor.antt =====
-- What a user monitors: the stocks of the watch tables and the enabled alert rules.
pub mod Capacity
pub mod Columns
mod Counting
mod Limits
pub mod Steps
mod Examples
