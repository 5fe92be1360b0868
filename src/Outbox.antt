-- ===== src/Outbox.antt =====
-- backend/app/services/notification_service.py: delivering the rows of the notification outbox.
pub mod Records
pub mod Delivery
pub mod Calls
pub mod Commit
pub mod Once
pub mod Budget
pub mod Scan
mod Examples
