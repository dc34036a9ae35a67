-- ===== src/Ota/Host.antt =====
-- src/hal/usb/usb_dispatch_ota.cpp and src/runtime/ota_session_watch.h: the update commands of the
-- host and the watch that ends a session whose host has gone. A command comes with its JSON fields
-- read and its Base64 decoded; replies and overlay requests are values.
pub mod Watch
use canshift_firmware.Prelude.{
  ℕ, zero, suc, ◌+◌, Bool, true, false, not, ◌&&◌, ◌||◌, Option, none, some, List, [], ◌∷◌,
  if◌then◌else◌, ltb, leb, ◌==◌, ◌!=◌, length, sub32,
}
use canshift_firmware.Ota.Crypto.{Crypto}
use canshift_firmware.Ota.Receiver.{
  Error, Receiver, BeginAnswers, CommitAnswers, CommitResult, WriteResult, is_receiving, begin,
  write_chunk, commit, abort,
}

abbrev pub ota_signature_bytes : ℕ
ota_signature_bytes = 64

abbrev pub idle_timeout_ms : ℕ
idle_timeout_ms = 15000

pub data Verdict : Type 0 where
  keep idle_timeout link_closed : Verdict

pub record WatchedSession : Type 0 where
  pub receiving : Bool
  pub from_socket : Bool
  pub last_activity_ms : ℕ

unfoldable pub judge : WatchedSession → Bool → ℕ → Verdict
judge s socket_closed now =
    if not s.receiving
    then keep
    else if socket_closed && s.from_socket
    then link_closed
    else if ltb idle_timeout_ms (sub32 now s.last_activity_ms)
    then idle_timeout
    else keep

-- `OtaOverlay::FailReason`
pub data FailReason : Type 0 where
  write_failure commit_failure aborted_by_host interrupted : FailReason

pub data Overlay : Type 0 where
  show_progress : ℕ → Overlay
  fail : FailReason → ℕ → Overlay
  complete : Overlay

pub data Reply : Type 0 where
  bad_args bad_signature b64_decode acknowledged restarting : Reply
  begin_error : Error → Reply
  written : ℕ → Reply
  write_error : Option Error → ℕ → Reply
  commit_error : Option Error → ℕ → Reply

pub data SignatureField : Type 0 where
  missing malformed : SignatureField
  present : List ℕ → SignatureField

-- The field is `none` when absent; a text that is no Base64 or does not fit is `some none`.
unfoldable pub decode_signature : Option (Option (List ℕ)) → SignatureField
decode_signature none = missing
decode_signature (some none) = malformed
decode_signature (some (some bytes)) =
    if length bytes == ota_signature_bytes then present bytes else malformed

pub record Host (c : Crypto) : Type 0 where
  pub receiver : Receiver c
  pub session_from_socket : Bool
  pub session_activity_ms : ℕ

-- What a command writes and asks of the overlay.
pub record Output : Type 0 where
  pub replies : List Reply
  pub overlay : List Overlay

abbrev pub say : Reply → Output
say r = record { replies = r ∷ []; overlay = [] }

module _ {c : Crypto} where
  begin_provided :
      Bool → ℕ → List ℕ → Option (List ℕ) → BeginAnswers → Bool → ℕ → Host c → Host c × Output
  begin_provided allow_unsigned total sha provided answers from_socket now h =
      let (r, failure) = begin allow_unsigned total sha provided answers h.receiver in
      elim failure [
        | some e ↦ (record h { receiver = r }, say (begin_error e))
        | none ↦ (
          record { receiver = r; session_from_socket = from_socket; session_activity_ms = now },
          record { replies = acknowledged ∷ []; overlay = show_progress total ∷ [] },
        )
      ]

  -- `sha` is `none` where `parseSha256Hex` fails.
  unfoldable pub handle_ota_begin :
      Bool
      → ℕ
      → Option (List ℕ)
      → SignatureField
      → BeginAnswers
      → Bool
      → ℕ
      → Host c
      → Host c × Output
  unfolding begin_provided
  handle_ota_begin allow_unsigned total none field answers from_socket now h = (h, say bad_args)
  handle_ota_begin allow_unsigned total (some sha) field answers from_socket now h =
      if total == 0 then (h, say bad_args) else elim field [
        | malformed ↦ (h, say bad_signature)
        | missing ↦ begin_provided allow_unsigned total sha none answers from_socket now h
        | present s ↦ begin_provided allow_unsigned total sha (some s) answers from_socket now h
      ]

  -- The fields are `none` where `parseOtaWriteFields` fails; a chunk that does not decode has no
  -- bytes.
  unfoldable pub handle_ota_write : Option (ℕ × List ℕ) → Bool → ℕ → Host c → Host c × Output
  handle_ota_write none write_ok now h = (h, say bad_args)
  handle_ota_write (some (offset, bytes)) write_ok now h =
      if length bytes == 0
      then (record h { receiver = abort h.receiver }, say b64_decode)
      else (let (r, w) = write_chunk offset bytes write_ok h.receiver in
          elim w.error [
            | some e ↦ (
              record h { receiver = r },
              record {
                replies = write_error (some e) w.written_total ∷ [];
                overlay = fail write_failure w.written_total ∷ [];
              },
            )
            | none ↦ (
              record h { receiver = r; session_activity_ms = now },
              say (written w.written_total),
            )
          ])

  -- A committed update answers, shows the last screen and restarts.
  unfoldable pub handle_ota_end : Bool → Bool → CommitAnswers → Host c → Host c × Output
  handle_ota_end allow_unsigned true answers h =
      let (r, result) = commit allow_unsigned answers h.receiver in
      elim result.error [
        | some e ↦ (
          record h { receiver = r },
          record {
            replies = commit_error (some e) result.detail_code ∷ [];
            overlay = fail commit_failure result.detail_code ∷ [];
          },
        )
        | none ↦ (
          record h { receiver = r },
          record { replies = restarting ∷ []; overlay = complete ∷ [] },
        )
      ]
  handle_ota_end allow_unsigned false answers h = (
    record h { receiver = abort h.receiver },
    record { replies = acknowledged ∷ []; overlay = fail aborted_by_host 0 ∷ [] },
  )

  unfoldable pub socket_ota_session_open : Host c → Bool
  socket_ota_session_open h = h.session_from_socket && is_receiving h.receiver.state

  abbrev pub session_of : Host c → WatchedSession
  session_of h = record {
    receiving = is_receiving h.receiver.state;
    from_socket = h.session_from_socket;
    last_activity_ms = h.session_activity_ms;
  }

  -- The written size is read after the abort.
  unfoldable pub abort_interrupted_session : Host c → Host c × Output
  abort_interrupted_session h =
      let r = abort h.receiver in
      (
        record h { receiver = r },
        record { replies = []; overlay = fail interrupted r.written_size ∷ [] },
      )

  unfoldable pub tick_ota_session_watch : Bool → ℕ → Host c → Host c × Output
  unfolding judge abort_interrupted_session
  tick_ota_session_watch socket_closed now h = elim (judge (session_of h) socket_closed now) [
    | keep ↦ (h, record { replies = []; overlay = [] })
    | _ ↦ abort_interrupted_session h
  ]
