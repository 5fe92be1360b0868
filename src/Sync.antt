-- ===== src/Sync.antt =====
-- market-data-hub/app/services/sync.py: from the providers to the repositories.
pub mod Failures
pub mod Fetching
pub mod Symbols
pub mod Quotes
pub mod QuoteSync
mod Reported
mod Taken
mod Gathered
mod QuoteStored
pub mod Securities
pub mod Atomic
mod Examples
mod Isolated
mod Requests
pub mod Persisting
mod Groups
mod Stored
mod Verdicts
