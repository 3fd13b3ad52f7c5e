-- ===== src/Info.antt =====
-- Information requests (server/info_ops).
pub mod Identity
pub mod Usage
pub mod Queries
pub mod Grants
