-- ===== src/Access.antt =====
-- The handlers of `PERMISSION` requests (server/permission_ops/permission_subhandlers.py).
pub mod Errors
pub mod Publicity
pub mod Grant
pub mod Revoke
pub mod Rights
pub mod Changes
pub mod Transfer
pub mod Transferred
