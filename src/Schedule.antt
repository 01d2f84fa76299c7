-- ===== src/Schedule.antt =====
-- tools/optolink-schedule-manager.py: the weekly schedules of the controller.
pub mod Times
pub mod Blocks
pub mod Windows
pub mod RoundTrip
pub mod Canonical
pub mod Manager
pub mod Rechecked
pub mod Confirmed
pub mod Editor
