-- ===== src/Models.antt =====
-- The models that the client and the server share (models/).
pub mod Flags
pub mod Roles
pub mod Session
pub mod Request
pub mod Responses
