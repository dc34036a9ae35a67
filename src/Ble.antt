-- ===== src/Ble.antt =====
-- src/hal/ble: the frames that the phone gets over Bluetooth.
pub mod Bytes
pub mod Telemetry
