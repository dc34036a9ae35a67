-- ===== src/Ble/Telemetry/Dedupe.antt =====
-- What a phone has of the telemetry when equal frames are not sent again: src/hal/ble/telemetry_frame.cpp.
use canshift_firmware.Prelude.{
  ℕ, zero, suc, ◌+◌, ◌≤◌, ◌<◌, ◌≡◌, ◌⊎◌, inl, inr, refl, ap, sym, ◌∙◌, Bool, true, false, Option,
  none, some, List, [], ◌∷◌, if◌then◌else◌, ltb, length, All, arith, Bool-cases,
}
use canshift_firmware.Ble.Telemetry.{
  max_frame_bytes, keepalive_ticks, Deduper, bytes_eq, reset_deduper, should_send, Emitter,
  emit_telemetry,
}

-- The subscribers and the frame of a tick.
pub record Tick : Type 0 where
  pub subs : ℕ
  pub frame : List ℕ

abbrev pub IsFrame : Tick → Type 0
IsFrame t = (0 < length t.frame) × (length t.frame ≤ max_frame_bytes)

bytes_eq_sound : (xs ys : List ℕ) → bytes_eq xs ys ≡ true → xs ≡ ys
bytes_eq_sound [] [] e = refl
bytes_eq_sound [] (b ∷ ys) e = absurd (ground arith)
bytes_eq_sound (a ∷ xs) [] e = absurd (ground arith)
bytes_eq_sound (a ∷ xs) (b ∷ ys) e = ground (arith, bytes_eq_sound xs ys)

-- What the phone has after a notification, or after none.
abbrev pub received : Option (List ℕ) → List ℕ → List ℕ
received none view = view
received (some frame) view = frame

unfoldable pub step : Tick → Emitter → Emitter × Option (List ℕ)
step t e = emit_telemetry t.subs (some t.frame) e

-- While there are subscribers, the phone has the frame of the tick, and one that joins is sent it.
abbrev pub Mirrors : List Tick → Emitter → List ℕ → Type 0
Mirrors [] e view = Unit
Mirrors (t ∷ ts) e view =
    (0 < t.subs → received (step t e).1 view ≡ t.frame)
    × (e.last_sub_count < t.subs → (step t e).1 ≡ some t.frame)
    × Mirrors ts (step t e).0 (received (step t e).1 view)

-- The frame that is kept is the one that the phone has.
abbrev pub IsKnown : Emitter → List ℕ → Type 0
IsKnown e view = (e.dedup.last ≡ []) ⊎ (e.dedup.last ≡ view)

abbrev Settles : List ℕ → Deduper → Deduper × Bool → Type 0
Settles frame d out =
    ((out.1 ≡ true) × (out.0.last ≡ frame) × (out.0.ticks_since_send ≡ 0))
    ⊎ ((out.1 ≡ false)
        × (out.0.last ≡ frame)
        × (d.last ≡ frame)
        × (out.0.ticks_since_send ≡ d.ticks_since_send + 1)
        × (out.0.ticks_since_send < keepalive_ticks))

should_send_lem :
    (frame : List ℕ) (d : Deduper)
    → 0 < length frame
    → length frame ≤ max_frame_bytes
    → Settles frame d (should_send frame d)
unfolding should_send
should_send_lem frame d p q = elim (Bool-cases (bytes_eq frame d.last)) [
  | inl e ↦ let same = bytes_eq_sound frame d.last e in ground arith
  | inr e ↦ ground arith
]

told_lem :
    (frame view : List ℕ) (d d' : Deduper) (send : Bool)
    → Settles frame d (d', send)
    → (d.last ≡ []) ⊎ (d.last ≡ view)
    → 0 < length frame
    → (received (if send then some frame else none) view ≡ frame)
      × (d'.last ≡ frame)
      × (d.last ≡ [] → send ≡ true)
told_lem frame view d d' true h k p = ground arith
told_lem frame view d d' false (inl (e, l, s)) k p = absurd (ground arith)
told_lem frame view d d' false (inr (e, l, same, s, b)) (inl n) p =
    absurd (omega (arith, ap length (sym same ∙ n)))
told_lem frame view d d' false (inr (e, l, same, s, b)) (inr n) p =
    (sym n ∙ same, l, λ n. absurd (omega (arith, ap length (sym same ∙ n))))

emit_lem :
    (subs : ℕ) (frame view : List ℕ) (e : Emitter)
    → 0 < length frame
    → length frame ≤ max_frame_bytes
    → IsKnown e view
    → let out = emit_telemetry (suc subs) (some frame) e in
      (received out.1 view ≡ frame)
      × (e.last_sub_count < suc subs → out.1 ≡ some frame)
      × (out.0.dedup.last ≡ frame)
unfolding emit_telemetry reset_deduper
emit_lem subs frame view e p q k = elim (Bool-cases (ltb e.last_sub_count (suc subs))) [
  | inl joins ↦
      let fresh = reset_deduper e.dedup in
      let out = should_send frame fresh in
      let (r, l, s) =
        told_lem frame view fresh out.0 out.1 (should_send_lem frame fresh p q) (inl refl) p in
      rw (joins, emit_telemetry)
        (r, λ j. ap (λ b. if◌then◌else◌ {A = Option (List ℕ)} b (some frame) none) (s refl), l)
  | inr stays ↦
      let out = should_send frame e.dedup in
      let (r, l, s) =
        told_lem frame view e.dedup out.0 out.1 (should_send_lem frame e.dedup p q) k p in
      rw (stays, emit_telemetry) (r, λ j. absurd (ground arith), l)
]

step_lem :
    (subs : ℕ) (frame view : List ℕ) (e : Emitter)
    → 0 < length frame
    → length frame ≤ max_frame_bytes
    → IsKnown e view
    → let out = emit_telemetry subs (some frame) e in
      (0 < subs → received out.1 view ≡ frame)
      × (e.last_sub_count < subs → out.1 ≡ some frame)
      × IsKnown out.0 (received out.1 view)
unfolding emit_telemetry
step_lem zero frame view e p q k = (λ h. absurd (omega arith), λ h. absurd (omega arith), k)
step_lem (suc subs) frame view e p q k =
    let (r, j, l) = emit_lem subs frame view e p q k in (λ h. r, j, inr (l ∙ sym r))

-- Whatever frames the ticks build, of 1 to 59 bytes, and however subscribers come and go: after each tick
-- with subscribers the phone has the frame of that tick, although frames equal to the last one are left out,
-- and a tick at which the number of subscribers grows notifies its frame. The phone starts with the frame
-- that the deduper keeps, or the deduper with none.
pub run-Mirrors :
    (ts : List Tick) (e : Emitter) (view : List ℕ)
    → All IsFrame ts
    → IsKnown e view
    → Mirrors ts e view
unfolding step
run-Mirrors [] e view v k = tt
run-Mirrors (t ∷ ts) e view ((p, q), v) k =
    let (r, j, k') = step_lem t.subs t.frame view e p q k in
    (r, j, run-Mirrors ts (step t e).0 (received (step t e).1 view) v k')

-- No tick of these notifies.
abbrev pub IsSilent : List Tick → Emitter → Type 0
IsSilent [] e = Unit
IsSilent (t ∷ ts) e = ((step t e).1 ≡ none) × IsSilent ts (step t e).0

counted_lem :
    (frame : List ℕ) (d : Deduper) (out : Deduper × Bool)
    → Settles frame d out
    → ◌≡◌ {A = Option (List ℕ)} (if out.1 then some frame else none) none
    → (d.ticks_since_send < out.0.ticks_since_send) × (out.0.ticks_since_send < keepalive_ticks)
counted_lem frame d out s quiet = ground arith

silent_lem :
    (subs : ℕ) (frame : List ℕ) (e : Emitter)
    → 0 < subs
    → 0 < length frame
    → length frame ≤ max_frame_bytes
    → (emit_telemetry subs (some frame) e).1 ≡ none
    → let after = (emit_telemetry subs (some frame) e).0.dedup.ticks_since_send in
      (e.dedup.ticks_since_send < after) × (after < keepalive_ticks)
unfolding emit_telemetry reset_deduper
silent_lem zero frame e n p q quiet = absurd (omega arith)
silent_lem (suc subs) frame e n p q quiet = elim (Bool-cases (ltb e.last_sub_count (suc subs))) [
  | inl joins ↦
      let fresh = reset_deduper e.dedup in
      let out = should_send frame fresh in
      let (r, l, s) =
        told_lem frame [] fresh out.0 out.1 (should_send_lem frame fresh p q) (inl refl) p in
      absurd (ground (arith, s refl))
  | inr stays ↦
      rw (stays, emit_telemetry)
        (counted_lem frame e.dedup (should_send frame e.dedup) (should_send_lem frame e.dedup p q)
          (rw (stays, emit_telemetry) at quiet))
]

silent_run :
    (ts : List Tick) (e : Emitter)
    → All IsFrame ts
    → All (λ t. 0 < t.subs) ts
    → IsSilent ts e
    → e.dedup.ticks_since_send < keepalive_ticks
    → length ts + e.dedup.ticks_since_send < keepalive_ticks
unfolding step
silent_run [] e v s quiet h = omega arith
silent_run (t ∷ ts) e ((p, q), v) (n, s) (now, quiet) h =
    let (up, below) = silent_lem t.subs t.frame e n p q now in
    let rest = silent_run ts (step t e).0 v s quiet below in omega arith

-- Among any ten ticks in a row with subscribers and a frame of 1 to 59 bytes, one notifies.
pub silent_lt_keepalive :
    (ts : List Tick) (e : Emitter)
    → All IsFrame ts
    → All (λ t. 0 < t.subs) ts
    → IsSilent ts e
    → length ts < keepalive_ticks
unfolding step
silent_lt_keepalive [] e v s quiet = omega arith
silent_lt_keepalive (t ∷ ts) e v s quiet =
    let (up, below) = silent_lem t.subs t.frame e s.0 v.0.0 v.0.1 quiet.0 in
    let all = silent_run (t ∷ ts) e v s quiet (omega arith) in omega arith
