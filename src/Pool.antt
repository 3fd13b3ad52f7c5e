-- ===== src/Pool.antt =====
-- The leased database connections (server/database/connections.py).
pub mod Leases
pub mod Sound
