-- ===== src/Database.antt =====
-- The PostgreSQL tables of the server and what its statements do to them (server/database/).
pub mod Tables
pub mod Backend
pub mod Statements
pub mod Queries
pub mod Rows
pub mod Outcomes
