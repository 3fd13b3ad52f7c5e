-- ===== src/Dispatch.antt =====
-- From a connection's bytes to a handler and back (server/callback.py, server/dispatch.py,
-- server/comms_utils, and the four top handlers).
pub mod Incoming
pub mod Outgoing
pub mod Handlers
pub mod Routing
pub mod Callback
pub mod Shrinks
pub mod Ended
pub mod Closed
pub mod Framing
pub mod Gate
pub mod Passing
pub mod Serving
pub mod Exchange
pub mod Reading
