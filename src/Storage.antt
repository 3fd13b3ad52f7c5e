-- ===== src/Storage.antt =====
-- The users' storage figures (server/file_ops/storage.py).
pub mod Cache
pub mod Flush
pub mod Figures
pub mod Synced
