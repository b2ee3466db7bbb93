-- ===== src/Cloud.antt =====
-- The coordinator of a cloud device and the vendor's fields that it reads: coordinator.py, models.py.
pub mod Readings
pub mod State
pub mod Update
pub mod Command
pub mod Experimental
mod Tests
