-- ===== src/Auth.antt =====
-- backend/app/services/auth_service.py: accounts, invitations and refresh sessions.
pub mod Records
pub mod Sessions
pub mod Accounts
pub mod Steps
pub mod Changes
pub mod Families
pub mod Tokens
pub mod Reuse
pub mod Replay
pub mod Chain
pub mod Sound
pub mod Refines
pub mod Edits
pub mod Registering
pub mod Identifiers
pub mod Invitations
mod Examples
