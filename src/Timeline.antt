-- ===== src/Timeline.antt =====
-- backend/app/repositories/state_event.py: the publication of a State timeline.
pub mod Records
pub mod Loop
pub mod Publish
pub mod Replay
pub mod Numbers
pub mod Examples
