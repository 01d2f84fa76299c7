-- ===== src/Maintenance.antt =====
-- config/optolink-splitter/optolink_maintenance_core.py: the guarded maintenance of the controller,
-- by commands that go through the running splitter over MQTT.
pub mod Commands
pub mod Device
pub mod Bytes
pub mod Snapshot
pub mod Settings
pub mod Reset
pub mod Host
pub mod Log
pub mod Surface
pub mod Calls
pub mod Verify
pub mod Restored
pub mod Requests
pub mod Readings
pub mod Outcomes
