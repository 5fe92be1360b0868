-- ===== src/Streams.antt =====
-- The stream of one price series, which the hub and the backend share: the fences of the
-- synchronizations, the invalidation by changed bars and the publication of the analysis.
pub mod Records
pub mod Bars
pub mod Fences
pub mod Publication
mod Written
mod Sound
mod Kept
mod Published
pub mod Steps
pub mod Fenced
mod Rising
mod Committed
mod Superseded
mod Examples
