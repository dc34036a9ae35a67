-- ===== src/Ota.antt =====
-- Firmware updates over the host link: src/runtime/ota_receiver.cpp, the session watch and the
-- command handlers of src/hal/usb/usb_dispatch_ota.cpp.
pub mod Crypto
pub mod Flash
pub mod Receiver
pub mod Host
