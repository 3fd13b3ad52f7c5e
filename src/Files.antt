-- ===== src/Files.antt =====
-- File operations (server/file_ops).
pub mod Disk
pub mod Buffers
pub mod Calls
pub mod Locks
pub mod Writing
pub mod Reading
pub mod Tree
pub mod State
pub mod Handlers
pub mod Amendment
pub mod Contents
pub mod Views
pub mod Writes
pub mod Appends
pub mod Reads
pub mod Contention
pub mod Served
pub mod Removal
pub mod Permitted
pub mod Unbuffered
