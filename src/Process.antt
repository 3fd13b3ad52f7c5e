-- ===== src/Process.antt =====
-- The server's process (server/process).
pub mod Events
