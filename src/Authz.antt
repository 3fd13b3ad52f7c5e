-- ===== src/Authz.antt =====
-- User sessions and accounts (server/authz/).
pub mod Library
pub mod State
pub mod Sessions
pub mod Tokens
pub mod Expiry
pub mod Bans
pub mod Accounts
pub mod Handlers
pub mod Logins
pub mod Refusals
