-- ===== src/Datalog/Session.antt =====
-- One round of the writer task of src/runtime/datalog keeps the file, the recording flag and the
-- session together.
use canshift_firmware.Prelude.{
  ℕ, zero, suc, ◌+◌, ◌≡◌, ◌⊎◌, refl, ap, sym, ◌∙◌, Bool, true, false, some, [], ◌++◌, if◌then◌else◌,
  ltb, arith, Bool-cases, Option-cases, inl, inr, u16, sub32,
}
use canshift_firmware.Datalog.File.{
  Platform, File, called, is_ok, sync, finish, close_file, open_file, create_fresh, write_header,
  Created, created, exists, refused, Errno, from_errno,
}
use canshift_firmware.Datalog.Append.{append-IsAppended}
use canshift_firmware.Datalog.Writer.{
  Session, idle, opened, halted, Writer, Inputs, session_step, drain, store_next_session,
  begin_recording, stored_next_session, open_session, close_session, run_action, tick_mount,
  flush_drained, flush_recording, tick, wants_open, wants_close, sync_interval_ms,
}
use canshift_firmware.Datalog.Inv.{IsWriter, is_opened, require_ok-IsWriter, goes_on, drain-Drains}

Created-cases : (x : Created) → (x ≡ created) ⊎ ((x ≡ exists) ⊎ ((e : Errno) × (x ≡ refused e)))
Created-cases created = inl refl
Created-cases exists = inr (inl refl)
Created-cases (refused e) = inr (inr (e, refl))

not_ok : (e : Errno) → is_ok (from_errno e) ≡ false
unfolding from_errno
not_ok Errno.no_space = refl
not_ok Errno.other_error = refl

module _ (p : Platform) where
  -- A file that has been created is open and empty.
  create_fresh_lem :
      (probes session : ℕ) (f : File)
      → (create_fresh p probes session f).2 ≡ created
      → ((create_fresh p probes session f).0.is_open ≡ true)
        × ((create_fresh p probes session f).0.content ≡ [])
  unfolding create_fresh
  create_fresh_lem zero session f e = absurd (ground arith)
  create_fresh_lem (suc probes) session f e = elim (Created-cases (p.create f.calls session)) [
    | inl k ↦ rw (k, create_fresh) (refl, refl)
    | inr (inl k) ↦
        rw (k, create_fresh)
          (create_fresh_lem probes (u16 (session + 1)) (called f) (rw (k, create_fresh) at e))
    | inr (inr (r, k)) ↦ absurd (ground arith)
  ]

  write_header_lem :
      (session : ℕ) (f : File)
      → f.content ≡ []
      → is_ok (write_header p session f).1 ≡ true
      → ((write_header p session f).0.is_open ≡ f.is_open)
        × (p.header session ≡ some (write_header p session f).0.content)
  unfolding write_header
  write_header_lem session f empty e = elim (Option-cases (p.header session)) [
    | inl k ↦ absurd (ground arith)
    | inr (bytes, k) ↦
        let a = append-IsAppended p bytes f in
        rw (k, write_header)
          (a.kept, ap some (sym (a.whole (rw (k, write_header) at e) ∙ ap (λ t. t ++ bytes) empty)))
  ]

  -- The header that `open` has written, when it succeeds.
  pub open_file_lem :
      (session : ℕ) (f : File)
      → let out = open_file p session f in
        is_ok out.2 ≡ true → (out.0.is_open ≡ true) × (p.header out.1 ≡ some out.0.content)
  unfolding open_file
  open_file_lem session f e = elim (Option-cases (p.make_dir f.calls)) [
    | inr (r, k) ↦ absurd (ground (arith, not_ok r))
    | inl k ↦
        let fresh = create_fresh p 16 session (called f) in
        elim (Created-cases fresh.2) [
          | inr (inl m) ↦ absurd (ground arith)
          | inr (inr (r, m)) ↦ absurd (ground (arith, not_ok r))
          | inl m ↦
              let (up, empty) = create_fresh_lem 16 session (called f) m in
              let head = write_header_lem fresh.1 fresh.0 empty (rw (k, m, open_file) at e) in
              rw (k, m, open_file) (head.0 ∙ up, head.1)
        ]
  ]

  pub store_next_lem :
      (used : ℕ) (w : Writer)
      → let w' = store_next_session p used w in
        (w'.file.is_open ≡ w.file.is_open)
        × (w'.file.content ≡ w.file.content)
        × (w'.session ≡ w.session)
        × (w'.ring ≡ w.ring)
        × (w'.dropped ≡ w.dropped)
        × (w'.dropped_at_open ≡ w.dropped_at_open)
  unfolding store_next_session
  store_next_lem used w = ground arith

  pub begin_recording_lem :
      (w : Writer)
      → let w' = begin_recording p w in
        (w'.recording ≡ true)
        × (w'.file.is_open ≡ w.file.is_open)
        × (w'.session ≡ w.session)
        × (w'.file.content ≡ w.file.content)
        × (w'.ring ≡ w.ring)
  unfolding begin_recording
  begin_recording_lem w = ground arith

  open_session-IsWriter : (w : Writer) → is_opened w.session ≡ true → IsWriter (open_session p w)
  unfolding open_session
  open_session-IsWriter w s =
      let cleared : Writer = record w { dropped_at_open = w.dropped; ring = [] } in
      let out = open_file p (stored_next_session w) w.file in
      elim (Bool-cases (is_ok out.2)) [
        | inr bad ↦
            rw (bad, open_session)
              (require_ok-IsWriter p (out.0, out.2) cleared (λ ok. absurd (ground arith)))
        | inl good ↦
            let up = (open_file_lem (stored_next_session w) w.file good).0 in
            let ready : Writer = record cleared { file = out.0 } in
            let kept = store_next_lem out.1 ready in
            let begun = begin_recording_lem (store_next_session p out.1 ready) in
            rw (good, goes_on p (out.0, out.2) cleared good, open_session)
              (record {
                recording = begun.0 ∙ sym (begun.1 ∙ kept.0 ∙ up);
                state = ap is_opened (begun.2 ∙ kept.2) ∙ s ∙ sym (begun.1 ∙ kept.0 ∙ up);
              })
      ]

  finish_closes : (t lost : ℕ) (f : File) → (finish p t lost f).0.is_open ≡ false
  unfolding finish close_file
  finish_closes t lost f = ground arith

  close_session-IsWriter : (w : Writer) → is_opened w.session ≡ false → IsWriter (close_session p w)
  unfolding close_session
  close_session-IsWriter w s =
      let left : Writer = record w { recording = false; file = called w.file } in
      let last = (drain p left).0 in
      let elapsed = sub32 (p.millis w.file.calls) w.start_ms in
      let lost = sub32 last.dropped last.dropped_at_open in
      let shut = finish_closes elapsed lost last.file in
      elim (drain-Drains p left) [
        | inr (bad, v, off, over) ↦ rw (bad, close_session) v
        | inl (good, v) ↦
            rw (good, close_session)
              (require_ok-IsWriter p (finish p elapsed lost last.file) last (λ ok. record {
                recording = v.recording ∙ sym shut;
                state = ap is_opened v.session ∙ s ∙ sym shut;
              }))
      ]

  if-IsWriter :
      (test : Bool) (w w' : Writer) → IsWriter w → IsWriter w' → IsWriter (if test then w else w')
  if-IsWriter true w w' v v' = v
  if-IsWriter false w w' v v' = v'

  flush_drained-IsWriter :
      (now : ℕ) (w : Writer) (emptied : Bool)
      → IsWriter w
      → IsWriter (flush_drained p now w emptied)
  unfolding flush_drained sync
  flush_drained-IsWriter now w false v = v
  flush_drained-IsWriter now w true v =
      if-IsWriter (ltb (sub32 now w.last_sync_ms) sync_interval_ms) w _ v (
        require_ok-IsWriter p (sync p w.file) (record w { last_sync_ms = now })
          (λ ok. record { recording = v.recording; state = v.state }))

  drain-IsWriter : (w : Writer) → IsWriter w → IsWriter (drain p w).0
  drain-IsWriter w h = elim (drain-Drains p w) [
    | inr (bad, v, off, over) ↦ v
    | inl (good, v) ↦ record {
      recording = v.recording ∙ h.recording ∙ sym v.kept;
      state = ap is_opened v.session ∙ h.state ∙ sym v.kept;
    }
  ]

  flush_recording-IsWriter :
      (now : ℕ) (w : Writer) → IsWriter w → IsWriter (flush_recording p now w)
  unfolding flush_recording
  flush_recording-IsWriter now w h =
      if-IsWriter w.recording (flush_drained p now (drain p w).0 (drain p w).1) w
        (flush_drained-IsWriter now (drain p w).0 (drain p w).1 (drain-IsWriter w h)) h

  tick_mount_lem :
      (now : ℕ) (w : Writer)
      → let w' = tick_mount p now w in
        (w'.recording ≡ w.recording) × (w'.file.is_open ≡ w.file.is_open) × (w'.session ≡ w.session)
  unfolding tick_mount
  tick_mount_lem now w = ground arith

  run_action-IsWriter :
      (i : Inputs) (card_ready : Bool) (session : Session) (w : Writer)
      → w.recording ≡ w.file.is_open
      → is_opened session ≡ w.file.is_open
      → let (next, action) = session_step i card_ready session in
        IsWriter (run_action p action (record w { session = next }))
  unfolding session_step run_action
  run_action-IsWriter i card_ready idle w r o = elim (Bool-cases (wants_open i card_ready)) [
    | inl e ↦ rw e (open_session-IsWriter (record w { session = opened }) refl)
    | inr e ↦ rw e (record { recording = r; state = o })
  ]
  run_action-IsWriter i card_ready opened w r o = elim (Bool-cases (wants_close i card_ready)) [
    | inl e ↦ rw e (close_session-IsWriter (record w { session = idle }) refl)
    | inr e ↦ rw e (record { recording = r; state = o })
  ]
  run_action-IsWriter i card_ready halted w r o = elim (Bool-cases i.bus_silent) [
    | inl e ↦ rw e (record { recording = r; state = o })
    | inr e ↦ rw e (record { recording = r; state = o })
  ]

  -- After any round of the task, whatever the platform answers, a session records exactly when its file
  -- is open and the session is in its opened state: no descriptor is left behind, and nothing is
  -- recorded without a file.
  pub tick-IsWriter : (i : Inputs) (w : Writer) → IsWriter w → IsWriter (tick p i w)
  unfolding tick
  tick-IsWriter i w v =
      let now = p.millis w.file.calls in
      let asked = tick_mount p now (record w { file = called w.file }) in
      let kept = tick_mount_lem now (record w { file = called w.file }) in
      flush_recording-IsWriter now _ (
        run_action-IsWriter i asked.mounted asked.session asked (kept.0 ∙ v.recording ∙ sym kept.1)
          (ap is_opened kept.2 ∙ v.state ∙ sym kept.1))
