-- ===== src/Api.antt =====
-- The cloud client: custom_components/alorair_lite/api.py.
pub mod Json
pub mod Identity
pub mod Request
pub mod Client
pub mod Login
pub mod Devices
pub mod Status
pub mod Control
pub mod Experimental
mod Tests
