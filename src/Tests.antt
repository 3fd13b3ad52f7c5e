-- ===== src/Tests.antt =====
-- Runs of the code on small inputs.
mod Fixtures
mod Access
mod Authz
mod Pool
mod Storage
mod Logs
mod Files
mod Client
mod Dispatch
mod Info
mod Sessions
