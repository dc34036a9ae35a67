-- ===== src/Datalog/Recording.antt =====
-- What the log file of a whole session of src/runtime/datalog holds.
use canshift_firmware.Prelude.{
  ℕ, ◌-◌, ◌≡◌, ◌≢◌, refl, ap, ap₂, sym, ◌∙◌, Bool, true, false, some, List, [], ◌∷◌, ◌++◌,
  if◌then◌else◌, ltb, length, arith, Bool-cases, inl, inr, sub32, append_assoc, append-nil,
}
use canshift_firmware.Datalog.File.{
  Platform, File, called, is_ok, append, sync, finish, close_file, open_file,
}
use canshift_firmware.Datalog.Append.{append-IsAppended}
use canshift_firmware.Datalog.Writer.{
  idle, halted, Writer, require_ok, drain, store_next_session, stored_next_session, open_session,
  close_session, flush_drained, flush_recording, enqueue, ring_bytes, sync_interval_ms,
}
use canshift_firmware.Datalog.Inv.{goes_on, halts, drain-Drains}
use canshift_firmware.Datalog.Session.{open_file_lem, store_next_lem, begin_recording_lem}

-- The sampler's records, and the writer's rounds while the session goes on.
pub data Event : Type 0 where
  sample : List ℕ → Event
  flush : ℕ → Event

-- The bytes of a record that the ring takes.
abbrev pub taken : List ℕ → Writer → List ℕ
taken bytes w = if ltb (ring_bytes - length w.ring) (length bytes) then [] else bytes

module _ (p : Platform) where
  -- The writer after the events, and the bytes of the records that the ring took.
  unfoldable pub run : List Event → Writer → Writer × List ℕ
  run [] w = (w, [])
  run (sample bytes ∷ es) w =
      let (w', rest) = run es (enqueue bytes w) in (w', taken bytes w ++ rest)
  run (flush now ∷ es) w = run es (flush_recording p now w)

  -- While the session records, the file and the ring hold the bytes.
  abbrev Logs : List ℕ → Writer → Type 0
  Logs bytes w = w.recording ≡ true → w.file.content ++ w.ring ≡ bytes

  sample-Logs :
      (bytes told : List ℕ) (w : Writer)
      → Logs told w
      → Logs (told ++ taken bytes w) (enqueue bytes w)
  unfolding enqueue
  sample-Logs bytes told w v = elim (Bool-cases (ltb (ring_bytes - length w.ring) (length bytes))) [
    | inl e ↦ rw (e, enqueue) (λ r. v r ∙ sym (append-nil told))
    | inr e ↦
        rw (e, enqueue)
          (λ r. sym (append_assoc w.file.content w.ring bytes) ∙ ap (λ t. t ++ bytes) (v r))
  ]

  if-Logs :
      (test : Bool) (told : List ℕ) (w w' : Writer)
      → Logs told w
      → Logs told w'
      → Logs told (if test then w else w')
  if-Logs true told w w' v v' = v
  if-Logs false told w w' v v' = v'

  off-Logs : (told : List ℕ) (w : Writer) → w.recording ≡ false → Logs told w
  off-Logs told w off r = absurd (ground arith)

  sync-Logs :
      (now : ℕ) (told : List ℕ) (w : Writer)
      → Logs told w
      → Logs told (require_ok p (sync p w.file) (record w { last_sync_ms = now }))
  sync-Logs now told w v =
      let asked : Writer = record w { last_sync_ms = now } in
      elim (Bool-cases (is_ok (sync p w.file).1)) [
        | inl e ↦ rw (goes_on p (sync p w.file) asked e) (unfold sync in v)
        | inr e ↦
            off-Logs told (require_ok p (sync p w.file) asked) (halts p (sync p w.file) asked e).0
      ]

  flush_drained-Logs :
      (now : ℕ) (told : List ℕ) (w : Writer) (emptied : Bool)
      → Logs told w
      → Logs told (flush_drained p now w emptied)
  unfolding flush_drained
  flush_drained-Logs now told w false v = v
  flush_drained-Logs now told w true v =
      if-Logs (ltb (sub32 now w.last_sync_ms) sync_interval_ms) told w _ v (sync-Logs now told w v)

  drain-Logs : (told : List ℕ) (w : Writer) → Logs told w → Logs told (drain p w).0
  drain-Logs told w v = elim (drain-Drains p w) [
    | inr (bad, h, off, over) ↦ off-Logs told (drain p w).0 off
    | inl (good, d) ↦ λ r.
        ap (λ t. (drain p w).0.file.content ++ t) d.ring
        ∙ (append-nil (drain p w).0.file.content ∙ (d.content ∙ v (sym d.recording ∙ r)))
  ]

  flush-Logs :
      (now : ℕ) (told : List ℕ) (w : Writer) → Logs told w → Logs told (flush_recording p now w)
  unfolding flush_recording
  flush-Logs now told w v =
      if-Logs w.recording told (flush_drained p now (drain p w).0 (drain p w).1) w
        (flush_drained-Logs now told (drain p w).0 (drain p w).1 (drain-Logs told w v)) v

  run-Logs :
      (es : List Event) (told : List ℕ) (w : Writer)
      → Logs told w
      → Logs (told ++ (run es w).1) (run es w).0
  unfolding run
  run-Logs [] told w v = λ r. v r ∙ sym (append-nil told)
  run-Logs (sample bytes ∷ es) told w v = λ r.
      run-Logs es (told ++ taken bytes w) (enqueue bytes w) (sample-Logs bytes told w v) r
      ∙ append_assoc told (taken bytes w) (run es (enqueue bytes w)).1
  run-Logs (flush now ∷ es) told w v =
      run-Logs es told (flush_recording p now w) (flush-Logs now told w v)

  finish_lem :
      (t lost : ℕ) (f : File)
      → is_ok (finish p t lost f).1 ≡ true
      → (finish p t lost f).0.content ≡ f.content ++ p.end_record t lost
  unfolding finish close_file sync
  finish_lem t lost f e =
      let a = append-IsAppended p (p.end_record t lost) f in
      elim (Bool-cases (is_ok (append p (p.end_record t lost) f).1)) [
        | inl good ↦ rw (good, finish) (a.whole good)
        | inr bad ↦ absurd (ground arith)
      ]

  close_lem :
      (w : Writer)
      → let elapsed = sub32 (p.millis w.file.calls) w.start_ms in
        let left : Writer = record w { recording = false; file = called w.file } in
        let lost = sub32 (drain p left).0.dropped (drain p left).0.dropped_at_open in
        (close_session p w).session ≢ halted
        → (close_session p w).file.content ≡ (w.file.content ++ w.ring) ++ p.end_record elapsed lost
  unfolding close_session
  close_lem w h =
      let elapsed = sub32 (p.millis w.file.calls) w.start_ms in
      let left : Writer = record w { recording = false; file = called w.file } in
      let last = (drain p left).0 in
      let lost = sub32 last.dropped last.dropped_at_open in
      elim (drain-Drains p left) [
        | inr (bad, v, off, over) ↦ absurd (h (rw (bad, close_session) over))
        | inl (good, d) ↦ elim (Bool-cases (is_ok (finish p elapsed lost last.file).1)) [
          | inr bad ↦
              absurd (
                h (rw (good, close_session) (halts p (finish p elapsed lost last.file) last bad).1))
          | inl e ↦
              rw (good, goes_on p (finish p elapsed lost last.file) last e, close_session)
                (finish_lem elapsed lost last.file e
                  ∙ ap (λ t. t ++ p.end_record elapsed lost) d.content)
        ]
      ]

  -- A session that `open_session` has begun.
  open_lem :
      (w : Writer)
      → (open_session p w).recording ≡ true
      → (n : ℕ) × (p.header n ≡ some ((open_session p w).file.content ++ (open_session p w).ring))
  unfolding open_session
  open_lem w r =
      let cleared : Writer = record w { dropped_at_open = w.dropped; ring = [] } in
      let out = open_file p (stored_next_session w) w.file in
      elim (Bool-cases (is_ok out.2)) [
        | inr bad ↦
            absurd (ground (arith, halts p (out.0, out.2) cleared bad, rw (bad, open_session) at r))
        | inl good ↦
            let ready : Writer = record cleared { file = out.0 } in
            let stored = store_next_session p out.1 ready in
            let kept = store_next_lem p out.1 ready in
            let begun = begin_recording_lem p stored in
            rw (good, goes_on p (out.0, out.2) cleared good, open_session)
              (
                out.1,
                (open_file_lem p (stored_next_session w) w.file good).1
                    ∙ ap some (
                        sym (append-nil out.0.content)
                        ∙ ap₂ ◌++◌ (sym (begun.3 ∙ kept.1)) (sym (begun.4 ∙ kept.3))),
              )
      ]

  -- The file of a session: the header of some session number, the records, and the last record.
  pub record IsLog (records content : List ℕ) : Type 0 where
    pub number : ℕ
    pub elapsed_ms : ℕ
    pub lost : ℕ
    pub header : List ℕ
    pub headed : p.header number ≡ some header
    pub held : content ≡ (header ++ records) ++ p.end_record elapsed_ms lost

  -- A session that `openSession` has begun, then any records of the sampler and rounds of the writer,
  -- then `closeSession` while it still records: when that does not halt, the file holds the header,
  -- exactly the records that the ring took, in order, and the last record, however the writes to the
  -- card were cut up.
  pub close_session-IsLog :
      (es : List Event) (w : Writer)
      → (open_session p w).recording ≡ true
      → let (last, records) = run es (open_session p w) in
        let closing : Writer = record last { session = idle } in
        last.recording ≡ true
        → (close_session p closing).session ≢ halted
        → IsLog records (close_session p closing).file.content
  close_session-IsLog es w begun on fine =
      let (last, records) = run es (open_session p w) in
      let closing : Writer = record last { session = idle } in
      let (n, headed) = open_lem w begun in
      let head = (open_session p w).file.content ++ (open_session p w).ring in
      let left : Writer = record closing { recording = false; file = called closing.file } in
      let elapsed = sub32 (p.millis closing.file.calls) closing.start_ms in
      let missed = sub32 (drain p left).0.dropped (drain p left).0.dropped_at_open in
      record {
        number = n;
        elapsed_ms = elapsed;
        lost = missed;
        header = head;
        headed = headed;
        held =
            close_lem closing fine
            ∙ ap (λ t. t ++ p.end_record elapsed missed)
                (run-Logs es head (open_session p w) (λ r. refl) on);
      }
