-- ===== src/Alerts.antt =====
-- backend/app/alerts: alert rules, observations and the edge trigger.
pub mod Rules
pub mod Observations
pub mod Evaluator
pub mod Trigger
pub mod Conditions
pub mod Payloads
pub mod Service
pub mod Examples
