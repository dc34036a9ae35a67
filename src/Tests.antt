-- ===== src/Tests.antt =====
-- Runs of the model on small inputs, and the theorems at concrete inputs.
mod Platform
mod Upload
mod Ota
mod Signals
mod Obd2
mod Inputs
mod Datalog
mod Scan
mod Link
mod Ble
mod Can
mod Sorting
mod Parser
