-- ===== src/Lib.antt =====
-- CANShift, the firmware of a CAN bus dash on ESP32 boards: the parts of it that decide what is stored,
-- installed, polled, recorded and reported to the host.
--
-- The program's parts, and the files that model them (paths are from the repository's root):
--
-- - Ota/: src/runtime/ota_receiver.cpp takes a firmware image in chunks, writes it to the spare
--   partition, hashes it and verifies its signature, and makes it the boot partition (Ota/Receiver; the
--   file's statics are the record Receiver, its functions the functions of the same name).
--   src/hal/usb/usb_dispatch_ota.cpp and src/runtime/ota_session_watch.h are the host's commands and the
--   watch that ends a session whose host is gone (Ota/Host). Ota/Crypto is what is taken from mbedTLS
--   and from the signature verifier, Ota/Flash the log of calls of the update API.
-- - Storage/: src/hal/storage/storage_atomic_swap.cpp swaps a staged file in with a backup (Storage), and
--   src/hal/storage/storage_driver.cpp has the one chunked write of the device (Storage/Chunks) on it.
--   Storage/FileSystem is what is taken from SPIFFS.
-- - Upload/: the two chunked transfers of the host over that chunked write, PUT_CONFIG_CHUNK
--   (src/hal/usb/usb_dispatch_config_chunk.cpp, Upload/Config) and PUT_FILE
--   (src/hal/usb/usb_dispatch_files.cpp and usb_signals_upload.cpp, Upload/Files), the test of a path
--   (src/hal/usb/usb_dispatch_validation.cpp, Upload/Paths), and the test of a staged signals file, which
--   may rewrite it (src/config/config_signals_file.inc, Upload/Signals). Upload/Mixed is about both
--   transfers at once.
-- - Signals/: src/runtime/signal_store.cpp, the latest value of each signal, shared by the two cores.
-- - Obd2/: src/can/obd2_response.cpp (Obd2/Response), src/can/obd2_dtc.cpp with
--   src/hal/usb/usb_dispatch_obd2.cpp (Obd2/Dtc) and src/can/obd2_poller.cpp (Obd2/Poller).
-- - Datalog/: src/runtime/datalog, the files of the SD card (Datalog/File) and the task that writes them
--   (Datalog/Writer), with the session steps of rust/datalog/src/session.rs.
-- - Scan: src/can/bus_scan.cpp, which takes the CAN driver (src/can/can_driver_install.cpp) over to find
--   the speed of the bus, over the interface Steps, which Scan/Machine fills with rust/bus-scan.
-- - Link/: the host link. src/hal/usb/usb_comm.cpp cuts the bytes of the port into lines (Link/Line);
--   usb_seq_echo.cpp gives a command's number back in its replies (Link/Echo, with the reading of a
--   command's code in usb_dispatch.cpp); usb_reply_route.cpp chooses where a line goes (Link/Reply).
-- - Ble/: src/hal/ble/telemetry_frame.cpp, the telemetry that a phone gets, and what a tick of
--   ble_telemetry.cpp notifies (Ble/Telemetry).
-- - Can/: the start of the CAN driver by a task on the other core, src/can/can_driver_install.cpp
--   (Can/Install), and its supervision, src/can/can_manager.cpp with rust/can-parser/src/bus_recovery.rs
--   (Can/Manager, with the first attempt in src/boot/boot_sequence.cpp). src/can/can_parser.cpp
--   (Can/Parser) fills a table of signals from the configuration and decodes frames by it into the
--   signal store; src/can/can_rx_route.cpp (Can/Route) chooses between it and the two decoders of
--   OBD-II responses.
-- - Inputs/: src/runtime/input_buttons.cpp, the debouncing and the gestures of the input pins.
-- - Prelude/ has the shared names, list lemmas and 32-bit arithmetic; Tests/ a platform to run the model
--   on, and the theorems at concrete inputs.
--
-- How the parts meet: the host's commands drive Ota/Host, Upload and Obd2/Dtc; Upload shares one
-- chunked write, and through it one file system, between its two transfers; the poller and the buttons
-- write to the signal store, which the log sampler reads. Lines of Link/Line are the commands, and what
-- they answer goes through Link/Reply. Can/Manager ticks the bus scan (Scan) and takes its answers; the
-- frames that it delivers go through Can/Route, and Can/Parser stores values into Signals.
--
-- Conventions. Stateful code takes its state and returns it, with what it sends or asks of other tasks
-- as values. Numbers are natural numbers; a 32-bit clock or size wraps around where the source's does
-- (add32, sub32, before32). What a library call answers is an argument, so that a statement holds for
-- every answer. A path or a text is the list of its characters.
--
-- Fuel: `append_loop` and `drain_loop` of Datalog have as many rounds as there are bytes, and every
-- round but the last takes one at least; `perform` of Scan has two, since a scan that failed asks for the
-- normal driver (Scan/Driver); `decimal` of Prelude/Texts has as many as the number, and each divides it
-- by ten; the other loops are structural.
--
-- Not modelled: the user interface, the drivers, the services of Bluetooth and Wi-Fi, configuration
-- parsing, the other phases of boot, alerts and the other runtime services, which are calls of libraries or shells around the
-- Rust crates; the wording of replies and logs; Base64 and JSON, which are arguments.
pub mod Prelude
pub mod Ble
pub mod Can
pub mod Datalog
pub mod Inputs
pub mod Link
pub mod Obd2
pub mod Ota
pub mod Scan
pub mod Signals
pub mod Storage
pub mod Tests
pub mod Upload
