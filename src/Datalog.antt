-- ===== src/Datalog.antt =====
-- src/runtime/datalog: the task that writes the log files of the SD card. Its ring buffer and session
-- steps are those of rust/datalog/src/ring.rs and session.rs, the ring as the queue of its bytes. Calls
-- of the file system, of the clock and of the NVS answer through `Platform`, each by its place in the
-- row of all calls, so that two calls may answer differently.
pub mod File
pub mod Writer
pub mod Append
pub mod Inv
pub mod Session
pub mod Recording
