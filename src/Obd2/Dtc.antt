-- ===== src/Obd2/Dtc.antt =====
-- src/can/obd2_dtc.cpp: one trouble-code exchange at a time, and src/hal/usb/usb_dispatch_obd2.cpp,
-- which starts exchanges and reports how they end. The clock and the answer of
-- `CanManager::sendFrame` are arguments; the statics of the file are the record `Dtc`.
pub mod Exchange
pub mod Race
use canshift_firmware.Prelude.{
  ℕ, zero, suc, ◌+◌, Bool, true, false, ◌&&◌, Option, none, some, List, [], ◌∷◌, if◌then◌else◌, ltb,
  leb, ◌==◌, ◌!=◌, take, drop, ◌++◌, replicate, add32, before32, u8,
}
use canshift_firmware.Obd2.Response.{
  Buffer, is_service_response, mode_read_dtc_response, mode_clear_dtc_response, request_dlc,
  build_service_request, extract_mode03_dtcs,
}

abbrev pub max_dtc_bytes : ℕ
max_dtc_bytes = 32

abbrev pub request_frame_id : ℕ
request_frame_id = 0x7DF

abbrev pub response_frame_id : ℕ
response_frame_id = 0x7E8

pub data Pending : Type 0 where
  idle read clear : Pending

pub data Result : Type 0 where
  ok timeout send_failed busy : Result

pub record Dtc : Type 0 where
  pub pending : Pending
  pub responded : Bool
  pub dtc_bytes : List ℕ
  pub dtc_byte_count : ℕ
  pub deadline_ms : ℕ

pub record Outcome : Type 0 where
  pub result : Result
  pub was_read : Bool
  pub byte_count : ℕ
  pub bytes : List ℕ

abbrev pub boot : Dtc
boot = record {
  pending = Pending.idle;
  responded = false;
  dtc_bytes = replicate max_dtc_bytes 0;
  dtc_byte_count = 0;
  deadline_ms = 0;
}

abbrev pub is_idle : Pending → Bool
is_idle idle = true
is_idle _ = false

abbrev pub is_read : Pending → Bool
is_read read = true
is_read _ = false

-- The kind and the service that it asks for.
abbrev pub service : Pending → ℕ
service clear = 0x04
service _ = 0x03

-- `sendFrame`, as the frame identifier and payload decide at the moment of the call.
abbrev pub Send : Type 0
Send = ℕ → List ℕ → Bool

-- The payload buffer starts with any bytes, `scratch`.
send_request : Pending → Send → List ℕ → Dtc → Dtc × Bool
send_request kind send scratch d =
    elim (build_service_request (service kind) (some scratch) request_dlc) [
      | none ↦ (record d { pending = Pending.idle }, false)
      | some payload ↦
          if send request_frame_id payload
          then (d, true)
          else (record d { pending = Pending.idle }, false)
    ]

unfoldable pub begin_exchange : Pending → ℕ → ℕ → Send → List ℕ → Dtc → Dtc × Bool
unfolding send_request
begin_exchange kind timeout_ms now send scratch d =
    if is_idle d.pending
    then send_request kind send scratch (record d {
      dtc_byte_count = 0;
      responded = false;
      deadline_ms = add32 now timeout_ms;
      pending = kind;
    })
    else (d, false)

unfoldable pub begin_read : ℕ → ℕ → Send → List ℕ → Dtc → Dtc × Bool
unfolding begin_exchange
begin_read = begin_exchange Pending.read

unfoldable pub begin_clear : ℕ → ℕ → Send → List ℕ → Dtc → Dtc × Bool
unfolding begin_exchange
begin_clear = begin_exchange Pending.clear

unfoldable pub is_busy : Dtc → Bool
is_busy d = elim (is_idle d.pending) [ true ↦ false | false ↦ true ]

unfoldable pub is_positive_response : Pending → Buffer → ℕ → Bool
is_positive_response idle bytes len = false
is_positive_response read bytes len = is_service_response bytes len mode_read_dtc_response
is_positive_response clear bytes len = is_service_response bytes len mode_clear_dtc_response

-- `memcpy(out->bytes, s_dtcBytes, s_dtcByteCount)`
abbrev pub copy_bytes : ℕ → List ℕ → List ℕ → List ℕ
copy_bytes n source target = take n source ++ drop n target

-- `out` is the caller's outcome object, `none` for null; the result says whether it was filled.
take_pending : ℕ → Outcome → Dtc → Dtc × Outcome × Bool
take_pending now out d =
    if d.responded
    then (
      record d { pending = Pending.idle },
      record {
        result = Result.ok;
        was_read = is_read d.pending;
        byte_count = d.dtc_byte_count;
        bytes = copy_bytes d.dtc_byte_count d.dtc_bytes out.bytes;
      },
      true,
    )
    else if before32 now d.deadline_ms
    then (d, out, false)
    else (
      record d { pending = Pending.idle },
      record out { result = Result.timeout; was_read = is_read d.pending; byte_count = 0 },
      true,
    )

unfoldable pub take_outcome : ℕ → Outcome → Dtc → Dtc × Outcome × Bool
unfolding take_pending
take_outcome now out d = if is_idle d.pending then (d, out, false) else take_pending now out d

-- `onRxFrame` up to the store to `s_responded`, for the exchange kind that it has loaded.
unfoldable pub rx_record : Pending → Buffer → ℕ → Dtc → Dtc
rx_record kind bytes len d =
    if is_read kind
    then (let (n, cells) = extract_mode03_dtcs bytes len d.dtc_bytes max_dtc_bytes in
        record d { dtc_byte_count = n; dtc_bytes = cells })
    else d

-- The store to `s_responded`, which is the last step of `onRxFrame`.
unfoldable pub rx_publish : Dtc → Dtc
rx_publish d = record d { responded = true }

-- Whether the frame is a positive response to the exchange kind.
unfoldable pub rx_accepts : Pending → ℕ → Buffer → ℕ → Bool
rx_accepts kind frame_id bytes len =
    if is_idle kind
    then false
    else if frame_id != response_frame_id
    then false
    else is_positive_response kind bytes len

unfoldable pub on_rx_frame : ℕ → Buffer → ℕ → Dtc → Dtc × Bool
unfolding rx_record rx_publish rx_accepts
on_rx_frame frame_id bytes len d =
    if rx_accepts d.pending frame_id bytes len
    then (rx_publish (rx_record d.pending bytes len d), true)
    else (d, false)

-- What the command handlers write to the host.
pub data Reply : Type 0 where
  obd_busy obd_send_failed obd_no_response obd_failed : Reply
  ok_reply : Reply
  dtc_bytes_reply : List ℕ → Reply

abbrev pub command_timeout_ms : ℕ
command_timeout_ms = 1500

-- `handleObdReadDtc` and `handleObdClearDtc`: nothing is written when the exchange has begun.
unfoldable pub handle_obd : Pending → ℕ → Send → List ℕ → Dtc → Dtc × List Reply
unfolding begin_exchange is_busy
handle_obd kind now send scratch d =
    let (d', begun) = begin_exchange kind command_timeout_ms now send scratch d in
    (d', if begun then [] else (if is_busy d' then obd_busy else obd_send_failed) ∷ [])

unfoldable pub failure_reason : Result → Reply
failure_reason timeout = obd_no_response
failure_reason send_failed = obd_send_failed
failure_reason busy = obd_busy
failure_reason ok = ok_reply

outcome_reply : Outcome → Reply
unfolding failure_reason
outcome_reply o = elim o.result [
  | ok ↦ if o.was_read then dtc_bytes_reply (take o.byte_count o.bytes) else ok_reply
  | r ↦ failure_reason r
]

-- `tickObdDtc`. The outcome object is a local of the handler.
unfoldable pub tick_obd_dtc : ℕ → Outcome → Dtc → Dtc × List Reply
unfolding take_outcome outcome_reply
tick_obd_dtc now local d =
    let (d', o, done) = take_outcome now local d in (d', if done then outcome_reply o ∷ [] else [])
