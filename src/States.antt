-- ===== src/States.antt =====
-- backend/app/states: the recognition of indicator states from two observations.
pub mod Values
pub mod Snapshot
pub mod Signals
pub mod Evaluators
pub mod Definitions
pub mod Registry
pub mod Engine
pub mod Pass
pub mod Reads
pub mod Alone
pub mod Crossing
pub mod Edges
pub mod Codes
pub mod Listed
mod Examples
mod Runs
