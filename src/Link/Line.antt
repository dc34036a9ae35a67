-- ===== src/Link/Line.antt =====
-- The receiving half of src/hal/usb/usb_comm.cpp: bytes of the serial port become command lines.
pub mod Bytes
pub mod Lines
pub mod Overlong
use canshift_firmware.Prelude.{
  ℕ, zero, suc, ◌+◌, ◌-◌, Bool, true, false, ◌||◌, List, [], ◌∷◌, ◌++◌, if◌then◌else◌, ltb, leb,
  ◌==◌, length, sub32,
}

-- `kUsbRxBufSize`
abbrev pub rx_buf_size : ℕ
rx_buf_size = 16384 + 256

-- `kUsbRxLineTimeoutMs`
abbrev pub line_timeout_ms : ℕ
line_timeout_ms = 2000

abbrev pub newline : ℕ
newline = 10

-- What the receiver does with a line: `dispatchFromSerial` gets it, or `line_too_long` is reported.
pub data Event : Type 0 where
  dispatched : List ℕ → Event
  too_long : Event

-- `s_rxBuf` up to `s_rxPos`, `s_rxDraining` and `s_lastHostCmdMs`.
pub record Receiver : Type 0 where
  pub buffer : List ℕ
  pub draining : Bool
  pub last_cmd_ms : ℕ

unfoldable pub init : Receiver
init = record { buffer = []; draining = false; last_cmd_ms = 0 }

unfoldable pub drop_abandoned_line : ℕ → Receiver → Receiver
drop_abandoned_line now r =
    if (length r.buffer == 0) || leb (sub32 now r.last_cmd_ms) line_timeout_ms
    then r
    else record r { buffer = []; draining = false }

unfoldable pub finish_serial_line : Receiver → Receiver × List Event
finish_serial_line r =
    (record r { buffer = [] }, if ltb 0 (length r.buffer) then dispatched r.buffer ∷ [] else [])

unfoldable pub reject_overlong_line : Receiver → Receiver × List Event
reject_overlong_line r = (record r { buffer = []; draining = true }, too_long ∷ [])

unfoldable pub accept_serial_byte : ℕ → ℕ → Receiver → Receiver × List Event
unfolding finish_serial_line reject_overlong_line
accept_serial_byte now c r =
    let seen : Receiver = record r { last_cmd_ms = now } in
    if r.draining
    then (record seen { draining = if c == newline then false else true }, [])
    else if c == newline
    then finish_serial_line seen
    else if leb (rx_buf_size - 1) (length r.buffer)
    then reject_overlong_line seen
    else (record seen { buffer = r.buffer ++ (c ∷ []) }, [])

-- The bytes that are there, each with the time at which it is read.
unfoldable pub accept_bytes : List (ℕ × ℕ) → Receiver → Receiver × List Event
accept_bytes [] r = (r, [])
accept_bytes ((now, c) ∷ bytes) r =
    let (r', events) = accept_serial_byte now c r in
    let (r'', rest) = accept_bytes bytes r' in (r'', events ++ rest)

-- A tick's time and what has arrived by then.
pub record Poll : Type 0 where
  pub now : ℕ
  pub bytes : List (ℕ × ℕ)

-- The receiving part of `tick`.
unfoldable pub receive : Poll → Receiver → Receiver × List Event
unfolding accept_bytes drop_abandoned_line
receive p r = accept_bytes p.bytes (drop_abandoned_line p.now r)

unfoldable pub run : List Poll → Receiver → Receiver × List Event
unfolding receive
run [] r = (r, [])
run (p ∷ ps) r =
    let (r', events) = receive p r in let (r'', rest) = run ps r' in (r'', events ++ rest)
