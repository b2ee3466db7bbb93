-- ===== src/LocalCoordinator.antt =====
-- Commands and reports of the local profile: custom_components/alorair_lite/local_coordinator.py.
pub mod State
pub mod Events
pub mod Command
mod Tests
