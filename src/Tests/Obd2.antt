-- ===== src/Tests/Obd2.antt =====
-- The OBD-II client with frames of eight bytes.
use canshift_firmware.Prelude.{
  ℕ, ◌≡◌, refl, true, false, none, some, List, [], ◌∷◌, replicate, arith, if◌then◌else◌, ◌==◌, ◌&&◌,
}
use canshift_firmware.Obd2.Response.{Buffer, extract_mode03_dtcs}
use canshift_firmware.Obd2.Response.Local.{extract_mode03_dtcs_lem}
use canshift_firmware.Obd2.Dtc.{
  Pending, Dtc, Outcome, Result, Send, Reply, dtc_bytes_reply, ok_reply, boot, handle_obd,
  tick_obd_dtc, rx_publish, rx_record,
}
use canshift_firmware.Obd2.Dtc.Exchange.{Frame, feed, last_response, exchange_report}
use canshift_firmware.Obd2.Dtc.Race.{timeout_then_clear, late_read_acknowledges_clear}
use canshift_firmware.Obd2.Poller.{
  Poller, SignalDef, Layout, Decode, init, tick, on_rx_frame, response_frame_id,
}
use canshift_firmware.Obd2.Poller.Schedule.{run_ticks, run_all, run_ticks_lem}
use canshift_firmware.Obd2.Poller.Setup.{init_stalls}
use canshift_firmware.Obd2.Poller.Decode.{is_response, stored, first_answered, on_rx_frame_lem}

-- Two codes, P0133 and P0420.
abbrev two_codes : Frame
two_codes = record { id = 0x7E8; bytes = 6 ∷ 0x43 ∷ 2 ∷ 1 ∷ 0x33 ∷ 4 ∷ 0x20 ∷ 0 ∷ []; len = 8 }

abbrev taken : Send
taken id payload = true

abbrev local : Outcome
local = record { result = Result.ok; was_read = false; byte_count = 0; bytes = replicate 32 0 }

extract_mode03_dtcs_lem_example :
    extract_mode03_dtcs (some two_codes.bytes) 8 (replicate 32 0) 32
    ≡ (4, 1 ∷ 0x33 ∷ 4 ∷ 0x20 ∷ replicate 28 0)
extract_mode03_dtcs_lem_example =
    extract_mode03_dtcs_lem two_codes.bytes (replicate 32 0) 8 32 (omega arith) (omega arith)
      (omega arith) (omega arith) (omega arith)

exchange_report_example :
    (tick_obd_dtc 200 local
      (feed (two_codes ∷ []) (handle_obd Pending.read 100 taken (replicate 8 0) boot).0)).1
    ≡ dtc_bytes_reply (1 ∷ 0x33 ∷ 4 ∷ 0x20 ∷ []) ∷ []
unfolding handle_obd canshift_firmware.Obd2.Response.build_service_request last_response
    canshift_firmware.Obd2.Dtc.rx_accepts canshift_firmware.Obd2.Dtc.is_positive_response
    canshift_firmware.Obd2.Response.is_service_response
exchange_report_example =
    exchange_report Pending.read 100 200 taken (replicate 8 0) (two_codes ∷ []) local boot
      (λ e. absurd (ground arith)) refl refl refl
      (record { held = omega arith; short = omega arith; count_byte = omega arith }, tt)

abbrev reading : Dtc
reading = record boot { pending = Pending.read; deadline_ms = 1600 }

late_read_acknowledges_clear_example :
    (tick_obd_dtc 1700 local (
      rx_publish (
        rx_record Pending.read
          (some two_codes.bytes)
          8
          (timeout_then_clear 1600 local taken (replicate 8 0) reading)))).1
    ≡ ok_reply ∷ []
unfolding handle_obd canshift_firmware.Obd2.Response.build_service_request
    canshift_firmware.Obd2.Dtc.rx_accepts canshift_firmware.Obd2.Dtc.is_positive_response
    canshift_firmware.Obd2.Response.is_service_response tick_obd_dtc
late_read_acknowledges_clear_example =
    late_read_acknowledges_clear 0x7E8 8 1600 1700 (some two_codes.bytes) local taken
      (replicate 8 0) reading refl refl refl refl refl

abbrev layout : Layout ℕ
layout = record {
  start_byte = 3;
  byte_length = 2;
  big_endian = true;
  is_signed = false;
  bit_mask = 0;
  scale = 1;
  offset = 0;
}

-- Engine speed every 100 ms, vehicle speed every 250 ms, and a signal that is not polled.
abbrev definitions : List (SignalDef ℕ ℕ)
definitions =
    record { name = 1; poll_mode = 1; poll_pid = 0x0C; poll_interval_ms = 100; layout = layout }
    ∷ record { name = 3; poll_mode = 1; poll_pid = 0x05; poll_interval_ms = 0; layout = layout }
    ∷ record { name = 2; poll_mode = 1; poll_pid = 0x0D; poll_interval_ms = 250; layout = layout }
    ∷ []

abbrev catalogue : ℕ → ℕ
catalogue name = name

abbrev clock : ℕ → ℕ
clock i = 1000

abbrev first_tick : Poller ℕ
first_tick = (tick 1000 (init catalogue clock (some definitions))).0

init_stalls_example : let p = init catalogue clock (some definitions) in tick 3000000000 p ≡ (p, [])
init_stalls_example = init_stalls catalogue clock definitions 3000000000 (omega arith) (omega arith)

abbrev times : List ℕ
times = 1010 ∷ 1030 ∷ 1060 ∷ 1130 ∷ 1400 ∷ []

run_ticks_lem_example : run_ticks times first_tick ≡ run_all times first_tick.slots
unfolding tick init
run_ticks_lem_example =
    run_ticks_lem 1000 (omega arith) times first_tick
      (
        (record { word = omega arith; close = omega arith }, omega arith),
        (
          (record { word = omega arith; close = omega arith }, omega arith),
          (
            (record { word = omega arith; close = omega arith }, omega arith),
            (
              (record { word = omega arith; close = omega arith }, omega arith),
              ((record { word = omega arith; close = omega arith }, omega arith), tt),
            ),
          ),
        ),
      )
      (
        (record { word = omega arith; close = omega arith }, omega arith),
        ((record { word = omega arith; close = omega arith }, omega arith), tt),
      )
      refl

on_rx_frame_lem_example :
    let bytes : List ℕ = 4 ∷ 0x41 ∷ 0x0C ∷ 0x1A ∷ 0xF8 ∷ 0 ∷ 0 ∷ 0 ∷ [] in
    let decode : Decode ℕ = λ b l n. 6904 in
    on_rx_frame decode 0x7E8 (some bytes) 8 first_tick ≡ (
      if (0x7E8 == response_frame_id) && is_response bytes 8
      then stored decode bytes 8 (first_answered bytes 8 first_tick.slots)
      else none)
on_rx_frame_lem_example =
    on_rx_frame_lem (λ b l n. 6904) 0x7E8 (4 ∷ 0x41 ∷ 0x0C ∷ 0x1A ∷ 0xF8 ∷ 0 ∷ 0 ∷ 0 ∷ []) 8
      first_tick
