-- ===== src/Client.antt =====
-- The client (client/session_manager.py, client/communication, client/operations).
pub mod Reading
pub mod Complete
pub mod Communication
pub mod Answers
pub mod SessionManager
pub mod AuthOperations
pub mod InSync
pub mod LoggedIn
pub mod PermissionOperations
pub mod Remote
pub mod Sending
pub mod Sent
