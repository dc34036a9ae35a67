-- ===== src/Link/Reply.antt =====
-- Where a line goes: src/hal/usb/usb_reply_route.cpp in a build with the workshop mode, the tasks of
-- usb_seq_echo.cpp, and `sendLine` of usb_comm.cpp. Tasks have numbers; a lock that is not had in time and
-- the heap's answer are arguments, and a write to the port succeeds.
pub mod Routing
use canshift_firmware.Prelude.{
  ℕ, zero, ◌+◌, ◌-◌, Bool, true, false, not, ◌||◌, Option, none, some, List, [], ◌∷◌, ◌++◌,
  if◌then◌else◌, ◌==◌, length,
}
use canshift_firmware.Link.Echo.{Seq, extract_cmd_byte, parse_after_cmd, ends_with, send_tagged}

-- `ReplyRoute`
pub data Route : Type 0 where
  broadcast uart socket : Route

pub data Output : Type 0 where
  to_serial : List ℕ → Output
  to_socket : List ℕ → Output

-- The statics of both files; no task has a scope where the handle is null.
pub record Scopes : Type 0 where
  pub route_task : Option ℕ
  pub route : Route
  pub seq_task : Option ℕ
  pub seq : Seq
  pub has_socket : Bool

-- What the platform answers while a line is sent.
pub record Answers : Type 0 where
  pub locked : Bool
  pub allocated : Bool

-- `kRouteSinks`
abbrev pub serial_of : Route → Bool
serial_of broadcast = true
serial_of uart = true
serial_of socket = false

abbrev pub socket_of : Route → Bool
socket_of broadcast = true
socket_of uart = false
socket_of socket = true

abbrev pub is_task : Option ℕ → ℕ → Bool
is_task none task = false
is_task (some t) task = t == task

unfoldable pub current_route : Scopes → ℕ → Route
current_route s task = if is_task s.route_task task then s.route else broadcast

-- `UsbSeqEcho::active`
unfoldable pub active : Scopes → ℕ → Seq
active s task = if is_task s.seq_task task then s.seq else none

-- The line and its end, in two writes.
unfoldable pub serial_sink : Answers → List ℕ → List Output
serial_sink a line =
    if (length line == 0) || not a.locked
    then []
    else if ends_with 10 line
    then to_serial line ∷ []
    else to_serial line ∷ to_serial (10 ∷ []) ∷ []

unfoldable pub socket_sink : Scopes → List ℕ → List Output
socket_sink s line = if s.has_socket then to_socket line ∷ [] else []

unfoldable pub route_line : Answers → ℕ → List ℕ → Scopes → List Output
unfolding current_route serial_sink socket_sink
route_line a task line s =
    (if serial_of (current_route s task) then serial_sink a line else [])
    ++ (if socket_of (current_route s task) then socket_sink s line else [])

-- `sendLine`: the tagged line where there is one.
unfoldable pub send_line : Answers → ℕ → List ℕ → Scopes → List Output
unfolding active route_line
send_line a task line s = elim (send_tagged a.allocated line (active s task)) [
  | some tagged ↦ route_line a task tagged s
  | none ↦ route_line a task line s
]

-- `RouteScope`
unfoldable pub open_route : Route → ℕ → Scopes → Scopes
open_route route task s = record s { route = route; route_task = some task }

unfoldable pub close_route : Scopes → Scopes
close_route s = record s { route_task = none; route = broadcast }

-- `UsbSeqEcho::Scope`, which does nothing without a number.
unfoldable pub open_seq : Seq → ℕ → Scopes → Scopes
open_seq none task s = s
open_seq (some n) task s = record s { seq = some n; seq_task = some task }

unfoldable pub close_seq : Seq → Scopes → Scopes
close_seq none s = s
close_seq (some n) s = record s { seq_task = none; seq = none }

-- The start and the end of `dispatchFromSerial`, `dispatchFromSocket` and `handleCommand`.
unfoldable pub begin_command : Route → ℕ → List ℕ → Scopes → Scopes
unfolding open_route open_seq
begin_command source task line s =
    open_seq (parse_after_cmd (extract_cmd_byte line).1) task (open_route source task s)

unfoldable pub end_command : List ℕ → Scopes → Scopes
unfolding close_route close_seq
end_command line s = close_route (close_seq (parse_after_cmd (extract_cmd_byte line).1) s)
