-- ===== src/Streams.antt =====
-- The bytes that a peer sends, as asyncio's `StreamReader` hands them out, and the padding of
-- headers to a fixed size, which both sides do.
pub mod Reader
pub mod Padding
pub mod Reads
