-- ===== src/Obd2.antt =====
-- The OBD-II client of src/can: response parsing, trouble-code exchanges, periodic polling.
pub mod Response
pub mod Dtc
pub mod Poller
