-- ===== src/Datalog/Inv.antt =====
-- The log file of src/runtime/datalog is open exactly while a session records.
use canshift_firmware.Prelude.{
  ℕ, zero, suc, ◌+◌, ◌≡◌, ◌<◌, ◌⊎◌, append-nil, append_assoc, length-drop, refl, ap, sym, ◌∙◌, Bool,
  true, false, List, [], ◌∷◌, ◌++◌, if◌then◌else◌, length, take, drop, arith, Bool-cases, inl, inr,
}
use canshift_firmware.Datalog.File.{Result, Platform, File, is_ok, append, abandon}
use canshift_firmware.Datalog.Append.{IsAppended, append-IsAppended, take-drop}
use canshift_firmware.Datalog.Writer.{
  Session, opened, halted, Writer, halt, require_ok, drain_loop, drain, has_bytes, staging_bytes,
}

no_bytes : (xs : List ℕ) → has_bytes xs ≡ false → xs ≡ []
no_bytes [] e = refl
no_bytes (x ∷ xs) e = absurd (ground arith)

some_bytes : (xs : List ℕ) → has_bytes xs ≡ true → 0 < length xs
some_bytes [] e = absurd (ground arith)
some_bytes (x ∷ xs) e = omega arith

abbrev pub is_opened : Session → Bool
is_opened opened = true
is_opened _ = false

-- A session records, has its file open and is in the opened state, all three or none.
pub record IsWriter (w : Writer) : Type 0 where
  pub recording : w.recording ≡ w.file.is_open
  pub state : is_opened w.session ≡ w.file.is_open

module _ (p : Platform) where
  halt-IsWriter : (result : Result) (w : Writer) → IsWriter (halt p result w)
  unfolding halt abandon
  halt-IsWriter result w = ground arith

  pub require_ok-IsWriter :
      (out : File × Result) (w : Writer)
      → (is_ok out.1 ≡ true → IsWriter (record w { file = out.0 }))
      → IsWriter (require_ok p out w)
  unfolding require_ok
  require_ok-IsWriter out w v = elim (Bool-cases (is_ok out.1)) [
    | inl e ↦ rw (e, require_ok) (v e)
    | inr e ↦ rw (e, require_ok) (halt-IsWriter out.1 (record w { file = out.0 }))
  ]

  -- What a drain that has come to its end leaves: the ring is empty, the file holds what was in it, and
  -- nothing else has changed but the count of calls.
  pub record IsDrained (w w' : Writer) : Type 0 where
    pub ring : w'.ring ≡ []
    pub content : w'.file.content ≡ w.file.content ++ w.ring
    pub kept : w'.file.is_open ≡ w.file.is_open
    pub recording : w'.recording ≡ w.recording
    pub session : w'.session ≡ w.session
    pub dropped : w'.dropped ≡ w.dropped
    pub at_open : w'.dropped_at_open ≡ w.dropped_at_open

  -- Either that, or the writer has halted.
  abbrev pub Drains : Writer → Writer × Bool → Type 0
  Drains w out =
      ((out.1 ≡ true) × IsDrained w out.0)
      ⊎ ((out.1 ≡ false) × IsWriter out.0 × (out.0.recording ≡ false) × (out.0.session ≡ halted))

  pub halts :
      (out : File × Result) (w : Writer)
      → is_ok out.1 ≡ false
      → ((require_ok p out w).recording ≡ false) × ((require_ok p out w).session ≡ halted)
  unfolding require_ok halt
  halts out w e = ground arith

  pub goes_on :
      (out : File × Result) (w : Writer)
      → is_ok out.1 ≡ true
      → require_ok p out w ≡ record w { file = out.0 }
  unfolding require_ok
  goes_on out w e = rw (e, require_ok) refl

  drain_step :
      (rounds : ℕ) (w : Writer)
      → has_bytes w.ring ≡ true
      → let out = append p (take staging_bytes w.ring) w.file in
        let taken = require_ok p out (record w { ring = drop staging_bytes w.ring }) in
        drain_loop p (suc rounds) w
        ≡ (if is_ok out.1 then drain_loop p rounds taken else (taken, false))
  unfolding drain_loop
  drain_step rounds w e = rw (e, drain_loop) refl

  drain_stop :
      (rounds : ℕ) (w : Writer) → has_bytes w.ring ≡ false → drain_loop p (suc rounds) w ≡ (w, true)
  unfolding drain_loop
  drain_stop rounds w e = rw (e, drain_loop) refl

  empty-IsDrained : (w : Writer) → has_bytes w.ring ≡ false → IsDrained w w
  empty-IsDrained w e = record {
    ring = no_bytes w.ring e;
    content =
        sym (append-nil w.file.content) ∙ ap (λ t. w.file.content ++ t) (sym (no_bytes w.ring e));
    kept = refl;
    recording = refl;
    session = refl;
    dropped = refl;
    at_open = refl;
  }

  -- A round that has written its bytes, and the rounds behind it.
  round-IsDrained :
      (w w' : Writer) (out : File × Result)
      → IsAppended (take staging_bytes w.ring) w.file out
      → is_ok out.1 ≡ true
      → IsDrained (record w { ring = drop staging_bytes w.ring; file = out.0 }) w'
      → IsDrained w w'
  round-IsDrained w w' out a e v = record {
    ring = v.ring;
    content =
        v.content
        ∙ (ap (λ t. t ++ drop staging_bytes w.ring) (a.whole e)
            ∙ (append_assoc w.file.content (take staging_bytes w.ring) (drop staging_bytes w.ring)
                ∙ ap (λ t. w.file.content ++ t) (take-drop staging_bytes w.ring)));
    kept = v.kept ∙ a.kept;
    recording = v.recording;
    session = v.session;
    dropped = v.dropped;
    at_open = v.at_open;
  }

  drain_loop-Drains :
      (rounds : ℕ) (w : Writer) → length w.ring < rounds → Drains w (drain_loop p rounds w)
  drain_loop-Drains zero w fit = absurd (omega arith)
  drain_loop-Drains (suc rounds) w fit =
      let left : Writer = record w { ring = drop staging_bytes w.ring } in
      let out = append p (take staging_bytes w.ring) w.file in
      elim (Bool-cases (has_bytes w.ring)) [
        | inr e ↦ rw (drain_stop rounds w e) (inl (refl, empty-IsDrained w e))
        | inl e ↦ elim (Bool-cases (is_ok out.1)) [
          | inr bad ↦
              rw (drain_step rounds w e, bad)
                (inr (
                  refl,
                  require_ok-IsWriter out left (λ ok. absurd (ground arith)),
                  (halts out left bad).0,
                  (halts out left bad).1,
                ))
          | inl good ↦
              rw (drain_step rounds w e, good, goes_on out left good)
                (elim (drain_loop-Drains rounds (record left { file = out.0 })
                  (omega (arith, some_bytes w.ring e, length-drop staging_bytes w.ring))) [
                    | inl (done, v) ↦
                        inl (done, round-IsDrained w _ out (append-IsAppended p _ w.file) good v)
                    | inr over ↦ inr over
                  ])
        ]
      ]

  pub drain-Drains : (w : Writer) → Drains w (drain p w)
  unfolding drain
  drain-Drains w = drain_loop-Drains (length w.ring + 1) w (omega arith)
