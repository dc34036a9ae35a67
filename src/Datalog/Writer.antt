-- ===== src/Datalog/Writer.antt =====
-- src/runtime/datalog/datalog_writer.cpp and datalog_shared.cpp, with the session steps of
-- rust/datalog/src/session.rs.
use canshift_firmware.Prelude.{
  ℕ, zero, suc, ◌+◌, ◌-◌, Bool, true, false, not, ◌&&◌, ◌||◌, Option, none, some, List, [], ◌∷◌,
  ◌++◌, if◌then◌else◌, ltb, leb, length, take, drop, u16, u32, sub32,
}
use canshift_firmware.Datalog.File.{
  Result, ok, full, failed, Platform, File, called, is_ok, append, sync, finish, abandon, open_file,
}

abbrev pub staging_bytes : ℕ
staging_bytes = 4096

abbrev pub ring_bytes : ℕ
ring_bytes = 262144

abbrev pub mount_retry_ms : ℕ
mount_retry_ms = 30000

abbrev pub sync_interval_ms : ℕ
sync_interval_ms = 2000

abbrev pub close_after_silent_s : ℕ
close_after_silent_s = 10

pub data Session : Type 0 where
  idle opened halted : Session

pub data Action : Type 0 where
  no_action open_action close_action : Action

pub data Report : Type 0 where
  none_report sd_full sd_write sd_absent nvs_write : Report

pub record Inputs : Type 0 where
  pub bus_silent : Bool
  pub silent_seconds : ℕ
  pub workshop : Bool

-- The statics of the writer, of `DatalogShared` and of `SdCard`; `next_session` is the stored number.
pub record Writer : Type 0 where
  pub file : File
  pub session : Session
  pub recording : Bool
  pub start_ms : ℕ
  pub ring : List ℕ
  pub dropped : ℕ
  pub dropped_at_open : ℕ
  pub last_sync_ms : ℕ
  pub last_mount_try_ms : ℕ
  pub mount_tried : Bool
  pub absent_reported : Bool
  pub mounted : Bool
  pub next_session : Option ℕ
  pub errors : List Report

unfoldable pub wants_close : Inputs → Bool → Bool
wants_close i card_ready =
    i.workshop || (not card_ready || leb close_after_silent_s i.silent_seconds)

unfoldable pub wants_open : Inputs → Bool → Bool
wants_open i card_ready = card_ready && (not i.bus_silent && not i.workshop)

unfoldable pub session_step : Inputs → Bool → Session → Session × Action
unfolding wants_close wants_open
session_step i card_ready opened =
    if wants_close i card_ready then (idle, close_action) else (opened, no_action)
session_step i card_ready idle =
    if wants_open i card_ready then (opened, open_action) else (idle, no_action)
session_step i card_ready halted = if i.bus_silent then (idle, no_action) else (halted, no_action)

-- `enqueue`: a record that does not fit is dropped whole.
unfoldable pub enqueue : List ℕ → Writer → Writer
enqueue bytes w =
    if ltb (ring_bytes - length w.ring) (length bytes)
    then record w { dropped = u32 (w.dropped + 1) }
    else record w { ring = w.ring ++ bytes }

unfoldable pub failure_report : Result → Report
failure_report ok = none_report
failure_report full = sd_full
failure_report failed = sd_write

abbrev pub is_failed : Result → Bool
is_failed failed = true
is_failed _ = false

abbrev pub has_bytes : List ℕ → Bool
has_bytes [] = false
has_bytes (b ∷ bytes) = true

abbrev pub stored_next_session : Writer → ℕ
stored_next_session w = elim w.next_session [ none ↦ 1 | some n ↦ u16 n ]

module _ (p : Platform) where
  unfoldable pub halt : Result → Writer → Writer
  unfolding abandon failure_report
  halt result w = record w {
    recording = false;
    file = abandon p w.file;
    session = halted;
    errors = failure_report result ∷ w.errors;
    mounted = if is_failed result then false else w.mounted;
  }

  -- `requireOk` and `check`: the writer with the file that a call left.
  unfoldable pub require_ok : File × Result → Writer → Writer
  unfolding halt
  require_ok (file, result) w =
      let kept = record w { file = file } in if is_ok result then kept else halt result kept

  -- The loop of `drain`: every round but the last takes one byte at least.
  unfoldable pub drain_loop : ℕ → Writer → Writer × Bool
  unfolding require_ok
  drain_loop zero w = (w, true)
  drain_loop (suc rounds) w =
      let staged = take staging_bytes w.ring in
      let out = append p staged w.file in
      let taken = require_ok out (record w { ring = drop staging_bytes w.ring }) in
      let rest = drain_loop rounds taken in
      if has_bytes w.ring then (if is_ok out.1 then rest else (taken, false)) else (w, true)

  unfoldable pub drain : Writer → Writer × Bool
  drain w = drain_loop (length w.ring + 1) w

  unfoldable pub store_next_session : ℕ → Writer → Writer
  store_next_session used w =
      let asked = record w { file = called w.file } in
      if p.put_next w.file.calls
      then record asked { next_session = some (u16 (used + 1)) }
      else record asked { errors = nvs_write ∷ w.errors }

  unfoldable pub begin_recording : Writer → Writer
  begin_recording w = record w {
    last_sync_ms = p.millis w.file.calls;
    start_ms = p.millis w.file.calls;
    recording = true;
    file = called w.file;
  }

  unfoldable pub open_session : Writer → Writer
  open_session w =
      let cleared = record w { dropped_at_open = w.dropped; ring = [] } in
      let (file, session, result) = open_file p (stored_next_session w) w.file in
      let opened = require_ok (file, result) cleared in
      if is_ok result then begin_recording (store_next_session session opened) else opened

  unfoldable pub close_session : Writer → Writer
  close_session w =
      let elapsed_ms = sub32 (p.millis w.file.calls) w.start_ms in
      let (drained, emptied) = drain (record w { recording = false; file = called w.file }) in
      let lost = sub32 drained.dropped drained.dropped_at_open in
      if emptied then require_ok (finish p elapsed_ms lost drained.file) drained else drained

  unfoldable pub run_action : Action → Writer → Writer
  unfolding open_session close_session
  run_action no_action w = w
  run_action open_action w = open_session w
  run_action close_action w = close_session w

  unfoldable pub tick_mount : ℕ → Writer → Writer
  tick_mount now w =
      let mounted = p.mount w.file.calls in
      let tried = record w {
        mount_tried = true;
        last_mount_try_ms = now;
        file = called w.file;
        mounted = mounted;
      } in
      if w.mounted
      then w
      else if w.mount_tried && ltb (sub32 now w.last_mount_try_ms) mount_retry_ms
      then w
      else if mounted || w.absent_reported
      then tried
      else record tried { absent_reported = true; errors = sd_absent ∷ w.errors }

  -- `flushRecording` behind the drain.
  unfoldable pub flush_drained : ℕ → Writer → Bool → Writer
  unfolding require_ok
  flush_drained now w emptied =
      if not emptied
      then w
      else if ltb (sub32 now w.last_sync_ms) sync_interval_ms
      then w
      else require_ok (sync p w.file) (record w { last_sync_ms = now })

  unfoldable pub flush_recording : ℕ → Writer → Writer
  unfolding flush_drained
  flush_recording now w =
      let (drained, emptied) = drain w in
      if w.recording then flush_drained now drained emptied else w

  -- One round of `writerTask`.
  unfoldable pub tick : Inputs → Writer → Writer
  unfolding tick_mount session_step run_action flush_recording
  tick i w =
      let now = p.millis w.file.calls in
      let asked = tick_mount now (record w { file = called w.file }) in
      let (session, action) = session_step i asked.mounted asked.session in
      flush_recording now (run_action action (record asked { session = session }))
