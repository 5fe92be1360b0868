-- ===== src/Alerts/Service.antt =====
-- backend/app/services: how a stored rule is evaluated, caught up and turned into outbox rows.
pub mod Records
pub mod Replay
pub mod Evaluation
pub mod Keeps
pub mod Sequence
pub mod Enters
pub mod Reaches
pub mod Repeats
pub mod Examples
