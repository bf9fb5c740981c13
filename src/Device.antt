-- ===== src/Device.antt =====
-- The parts of qtoggleserver/frontend/js/common for operations on a device.
pub mod Wait
pub mod Firmware
pub mod Provisioning
pub mod Operation
pub mod Restore
pub mod Backup
mod Tests
