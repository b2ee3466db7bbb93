-- ===== src/LocalClient.antt =====
-- The inbound transport: custom_components/alorair_lite/local_client.py.
pub mod State
pub mod Queue
pub mod Connection
pub mod Send
pub mod Receive
pub mod Closing
pub mod Command
mod Tests
