-- ===== src/Link.antt =====
-- src/hal/usb: the lines between the device and the host, on the serial port and on the tuner's socket.
pub mod Line
pub mod Echo
pub mod Reply
