-- ===== src/Protocol.antt =====
-- The framing of the local connection: custom_components/alorair_lite/local_protocol.py.
-- Bytes are numbers below 256, and the numeric fields of a frame are naturals.
pub mod Bytes
pub mod Frame
pub mod Stream
pub mod Command
pub mod Status
mod Tests
