-- ===== src/Logs.antt =====
-- The activity log (server/logging.py).
pub mod Flush
pub mod Retries
