-- ===== src/Can.antt =====
-- src/can: the bring-up of the CAN driver and its supervision.
pub mod Install
pub mod Manager
pub mod Parser
pub mod Route
