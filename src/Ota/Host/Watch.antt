-- ===== src/Ota/Host/Watch.antt =====
-- What the host and the overlay are told of an update.
use canshift_firmware.Prelude.{
  ℕ, ◌<◌, ◌≡◌, ◌≢◌, ◌⊎◌, inl, inr, ap, ◌∙◌, Bool, true, false, ◌&&◌, ◌||◌, none, some, List, [],
  ◌∷◌, ◌++◌, ltb, ◌==◌, length, arith, Bool-cases, Option-cases, sub32,
}
use canshift_firmware.Ota.Crypto.{Crypto}
use canshift_firmware.Ota.Receiver.{
  failed, Error, Receiver, is_receiving, write_chunk, abort, WriteResult,
}
use canshift_firmware.Ota.Receiver.Inv.{
  Begun, img, Healthy, Wrote, accepted, dropped, write_chunk-Wrote,
}
use canshift_firmware.Ota.Host.{
  Host, Output, fail, interrupted, write_failure, say, written, write_error, idle_timeout_ms,
  tick_ota_session_watch, handle_ota_write,
}

-- The host is gone: its socket closed, or nothing came for more than 15 s.
abbrev pub is_interrupted : {c : Crypto} → Bool → ℕ → Host c → Bool
is_interrupted socket_closed now h =
    is_receiving h.receiver.state
    && (socket_closed && h.session_from_socket
        || ltb idle_timeout_ms (sub32 now h.session_activity_ms))

module _ {c : Crypto} where
  -- The watch ends exactly the sessions whose host is gone: the receiver then has failed and holds
  -- no update handle, and otherwise nothing changes. The overlay is always given 0 as the number of
  -- bytes written, since the abort has reset it.
  tick_ota_session_watch_lem :
      (socket_closed : Bool) (now : ℕ) (h : Host c)
      → let (h', out) = tick_ota_session_watch socket_closed now h in
        ((is_interrupted socket_closed now h ≡ false) × (h' ≡ h) × (out.overlay ≡ []))
        ⊎ ((is_interrupted socket_closed now h ≡ true)
            × (h'.receiver.state ≡ failed)
            × (h'.receiver.handle ≡ 0)
            × (out.overlay ≡ fail interrupted 0 ∷ []))
  unfolding tick_ota_session_watch abort
  tick_ota_session_watch_lem socket_closed now h = ground arith

  -- What a chunk command may answer on a session that has `before` in the flash.
  pub data Answers (b : Begun) (before bytes : List ℕ) (h : Host c) : Host c × Output → Type 0 where
    grows :
        {h' : Host c} {out : Output}
        → Healthy b h'.receiver
        → img h'.receiver ≡ before ++ bytes
        → out.replies ≡ written (length (before ++ bytes)) ∷ []
        → Answers b before bytes h (h', out)
    refuses :
        {h' : Host c} {out : Output} {e : Error}
        → h' ≡ h
        → out.replies ≡ write_error (some e) (length before) ∷ []
        → Answers b before bytes h (h', out)
    ends :
        {h' : Host c} {out : Output} {e : Error}
        → h'.receiver.state ≡ failed
        → out.replies ≡ write_error (some e) 0 ∷ []
        → Answers b before bytes h (h', out)

  -- The reply and the host state that `handleOtaWriteRaw` makes of a result.
  abbrev reply_of : Host c → ℕ → Receiver c × WriteResult → Host c × Output
  reply_of h now (r, w) = elim w.error [
    | some e ↦ (
      record h { receiver = r },
      record {
        replies = write_error (some e) w.written_total ∷ [];
        overlay = fail write_failure w.written_total ∷ [];
      },
    )
    | none ↦ (record h { receiver = r; session_activity_ms = now }, say (written w.written_total))
  ]

  reply_of-Answers :
      (b : Begun) (now : ℕ) (bytes : List ℕ) (h : Host c) (out : Receiver c × WriteResult)
      → Healthy b h.receiver
      → ((out.0 ≡ h.receiver)
          × (out.1.error ≢ none)
          × (out.1.written_total ≡ h.receiver.written_size))
        ⊎ Wrote b (img h.receiver) bytes out
      → Answers b (img h.receiver) bytes h (reply_of h now out)
  reply_of-Answers b now bytes h (r, w) v (inl (same, err, count)) = elim (Option-cases w.error) [
    | inl e ↦ absurd (err e)
    | inr (e', e) ↦ rw e (
        refuses {e = e'} (ap (λ t. record h { receiver = t }) same)
          (ap (λ n. write_error (some e') n ∷ []) (count ∙ v.live.written)))
  ]
  reply_of-Answers b now bytes h (r, w) v (inr (accepted live grown probe passes good total)) =
      rw good (
        grows (record { live = live; probe = probe; passes = passes }) grown
          (ap (λ n. written n ∷ []) total))
  reply_of-Answers b now bytes h (r, w) v (inr (dropped over closed bad count)) =
      elim (Option-cases w.error) [
        | inl e ↦ absurd (bad e)
        | inr (e', e) ↦ rw e (ends {e = e'} over (ap (λ n. write_error (some e') n ∷ []) count))
      ]

  -- A chunk command on a healthy session: it is taken, and the reply counts exactly the bytes that
  -- are now in the flash; or it is refused, nothing changes and the reply counts the bytes that
  -- already are; or the session ends, and the reply says 0 whatever was written.
  pub handle_ota_write-Answers :
      (b : Begun) (offset : ℕ) (bytes : List ℕ) (write_ok : Bool) (now : ℕ) (h : Host c)
      → length bytes ≢ 0
      → length bytes < 2147483648
      → Healthy b h.receiver
      → Answers b (img h.receiver) bytes h (handle_ota_write (some (offset, bytes)) write_ok now h)
  unfolding handle_ota_write
  handle_ota_write-Answers b offset bytes write_ok now h full short v =
      elim (Bool-cases (length bytes == 0)) [
        | inl e ↦ absurd (ground arith)
        | inr e ↦ rw e (
            reply_of-Answers b now bytes h (write_chunk offset bytes write_ok h.receiver) v
              (write_chunk-Wrote b offset bytes write_ok h.receiver short v))
      ]
