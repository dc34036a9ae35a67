-- ===== src/Inputs/Gestures.antt =====
-- Which presses src/runtime/input_buttons.cpp reports for a level that has settled: taps, double taps
-- and long presses.
use canshift_firmware.Prelude.{
  ℕ, ◌≡◌, inl, inr, refl, ap₂, ◌∙◌, Bool, true, false, not, ◌&&◌, ◌||◌, List, [], ◌∷◌, ◌++◌,
  if◌then◌else◌, ltb, leb, sub32, arith, Bool-cases,
}
use canshift_firmware.Inputs.{
  PressKind, short_press, long_press, double_press, BindingState, scan_settled, long_press_ms,
  double_tap_gap_ms, handle_edge, edge_of, flush_pending_short_press, on_pressed, on_released,
  on_holding, register_tap,
}

-- Scans of one level at these times.
unfoldable pub scan_level : Bool → List ℕ → BindingState → BindingState × List PressKind
scan_level raw [] s = (s, [])
scan_level raw (now ∷ times) s =
    let (s', fired) = scan_settled raw now s in
    let (last, rest) = scan_level raw times s' in (last, fired ++ rest)

-- A scan at which the button has been down for 600 ms, and one more than 250 ms after the release.
abbrev pub some_long : ℕ → List ℕ → Bool
some_long start [] = false
some_long start (now ∷ times) = leb long_press_ms (sub32 now start) || some_long start times

abbrev pub some_late : ℕ → List ℕ → Bool
some_late start [] = false
some_late start (now ∷ times) = ltb double_tap_gap_ms (sub32 now start) || some_late start times

-- Down since `start`, and the long press reported or not.
record IsDown (start release : ℕ) (long armed : Bool) (s : BindingState) : Type 0 where
  down : s.debounced_pressed ≡ true
  began : s.press_start_ms ≡ start
  last : s.last_release_ms ≡ release
  fired : s.long_fired_this_press ≡ long
  waits : s.pending_double_armed ≡ armed

-- Up since `release`, with a tap waiting for its second or not.
pub record IsUp (release : ℕ) (armed : Bool) (s : BindingState) : Type 0 where
  pub up : s.debounced_pressed ≡ false
  pub last : s.last_release_ms ≡ release
  pub waits : s.pending_double_armed ≡ armed

pressed_lem :
    (release now : ℕ) (armed : Bool) (s : BindingState)
    → IsUp release armed s
    → IsDown now release false armed (scan_settled true now s).0
      × ((scan_settled true now s).1 ≡ [])
unfolding scan_settled edge_of handle_edge on_pressed flush_pending_short_press
pressed_lem release now armed s v = ground (arith, v.up, v.last, v.waits)

held_on :
    (times : List ℕ) (start release : ℕ) (s : BindingState)
    → IsDown start release true false s
    → scan_level true times s ≡ (s, [])
unfolding scan_level scan_settled edge_of handle_edge on_holding flush_pending_short_press
held_on [] start release s v = refl
held_on (now ∷ times) start release s v =
    ground (arith, v.down, v.fired, v.waits, held_on times start release s v)

long_lem :
    (start release now : ℕ) (armed : Bool) (s : BindingState)
    → IsDown start release false armed s
    → leb long_press_ms (sub32 now start) ≡ true
    → IsDown start release true false (scan_settled true now s).0
      × ((scan_settled true now s).1 ≡ long_press ∷ [])
unfolding scan_settled edge_of handle_edge on_holding flush_pending_short_press
long_lem start release now armed s v e = ground (arith, v.down, v.began, v.last, v.fired, v.waits)

wait_lem :
    (start release now : ℕ) (armed : Bool) (s : BindingState)
    → IsDown start release false armed s
    → leb long_press_ms (sub32 now start) ≡ false
    → scan_settled true now s ≡ (s, [])
unfolding scan_settled edge_of handle_edge on_holding flush_pending_short_press
wait_lem start release now armed s v e = ground (arith, v.down, v.began, v.last, v.fired, v.waits)

-- Holding reports one long press at the first scan late enough, and forgets a waiting tap.
held_lem :
    (times : List ℕ) (start release : ℕ) (armed : Bool) (s : BindingState)
    → IsDown start release false armed s
    → let long = some_long start times in
      IsDown start release long (armed && not long) (scan_level true times s).0
      × ((scan_level true times s).1 ≡ (if long then long_press ∷ [] else []))
unfolding scan_level
held_lem [] start release armed s v = ground (arith, v.down, v.began, v.last, v.fired, v.waits)
held_lem (now ∷ times) start release armed s v =
    elim (Bool-cases (leb long_press_ms (sub32 now start))) [
      | inl e ↦
          let (w, f) = long_lem start release now armed s v e in
          let on = held_on times start release (scan_settled true now s).0 w in
          ground (arith, e, f, on, w.down, w.began, w.last, w.fired, w.waits)
      | inr e ↦
          let same = wait_lem start release now armed s v e in
          let ih = held_lem times start release armed s v in rw (e, same, scan_level) ih
    ]

release_lem :
    (start release now : ℕ) (long armed : Bool) (s : BindingState)
    → IsDown start release long armed s
    → let tap = ltb (sub32 now start) long_press_ms in
      let double = tap && (armed && leb (sub32 now release) double_tap_gap_ms) in
      IsUp now (if tap then not double else armed) (scan_settled false now s).0
      × ((scan_settled false now s).1 ≡ (if double then double_press ∷ [] else []))
unfolding scan_settled edge_of handle_edge on_released register_tap flush_pending_short_press
release_lem start release now long armed s v =
    ground (arith, v.down, v.began, v.last, v.fired, v.waits)

flush_lem :
    (release now : ℕ) (s : BindingState)
    → IsUp release true s
    → ltb double_tap_gap_ms (sub32 now release) ≡ true
    → IsUp release false (scan_settled false now s).0
      × ((scan_settled false now s).1 ≡ short_press ∷ [])
unfolding scan_settled edge_of handle_edge flush_pending_short_press
flush_lem release now s v e = ground (arith, v.up, v.last, v.waits)

stay_lem :
    (release now : ℕ) (armed : Bool) (s : BindingState)
    → IsUp release armed s
    → armed && ltb double_tap_gap_ms (sub32 now release) ≡ false
    → scan_settled false now s ≡ (s, [])
unfolding scan_settled edge_of handle_edge flush_pending_short_press
stay_lem release now armed s v e = ground (arith, v.up, v.last, v.waits)

quiet_lem :
    (times : List ℕ) (release : ℕ) (s : BindingState)
    → IsUp release false s
    → scan_level false times s ≡ (s, [])
unfolding scan_level
quiet_lem [] release s v = refl
quiet_lem (now ∷ times) release s v =
    rw (stay_lem release now false s v refl, scan_level) (quiet_lem times release s v)

-- Being up reports a waiting tap at the first scan late enough.
up_lem :
    (times : List ℕ) (release : ℕ) (armed : Bool) (s : BindingState)
    → IsUp release armed s
    → let short = armed && some_late release times in
      IsUp release (armed && not short) (scan_level false times s).0
      × ((scan_level false times s).1 ≡ (if short then short_press ∷ [] else []))
unfolding scan_level
up_lem times release false s v = rw (quiet_lem times release s v) (v, refl)
up_lem [] release true s v = ground (arith, v.up, v.last, v.waits)
up_lem (now ∷ times) release true s v =
    elim (Bool-cases (ltb double_tap_gap_ms (sub32 now release))) [
      | inl e ↦
          let (w, f) = flush_lem release now s v e in
          let on = quiet_lem times release (scan_settled false now s).0 w in
          ground (arith, e, f, on, w.up, w.last, w.waits)
      | inr e ↦ rw (e, stay_lem release now true s v e, scan_level) (up_lem times release true s v)
    ]

-- One press: the scan that sees it, those while it is held, the one that sees the release, and those
-- until the next press.
pub record Press : Type 0 where
  pub start : ℕ
  pub held : List ℕ
  pub release : ℕ
  pub after : List ℕ

unfoldable pub scan_press : Press → BindingState → BindingState × List PressKind
scan_press p s =
    let (down, nothing) = scan_settled true p.start s in
    let (kept, long) = scan_level true p.held down in
    let (up, double) = scan_settled false p.release kept in
    let (last, short) = scan_level false p.after up in
    (last, nothing ++ (long ++ (double ++ short)))

unfoldable pub scan_presses : List Press → BindingState → List PressKind
scan_presses [] s = []
scan_presses (p ∷ ps) s = let (s', fired) = scan_press p s in fired ++ scan_presses ps s'

-- What one press is, given the last release and whether a tap waits for its second.
abbrev pub is_long : Press → Bool
is_long p = some_long p.start p.held

abbrev pub is_tap : Press → Bool
is_tap p = ltb (sub32 p.release p.start) long_press_ms

abbrev pub is_double : ℕ → Bool → Press → Bool
is_double release armed p =
    is_tap p && ((armed && not (is_long p)) && leb (sub32 p.release release) double_tap_gap_ms)

abbrev pub waits_after : ℕ → Bool → Press → Bool
waits_after release armed p =
    if is_tap p then not (is_double release armed p) else armed && not (is_long p)

abbrev pub is_short : ℕ → Bool → Press → Bool
is_short release armed p = waits_after release armed p && some_late p.release p.after

abbrev pub report : ℕ → Bool → Press → List PressKind
report release armed p =
    (if is_long p then long_press ∷ [] else [])
    ++ ((if is_double release armed p then double_press ∷ [] else [])
        ++ (if is_short release armed p then short_press ∷ [] else []))

abbrev pub report_all : ℕ → Bool → List Press → List PressKind
report_all release armed [] = []
report_all release armed (p ∷ ps) =
    report release armed p
    ++ report_all p.release (waits_after release armed p && not (is_short release armed p)) ps

scan_press_lem :
    (p : Press) (release : ℕ) (armed : Bool) (s : BindingState)
    → IsUp release armed s
    → IsUp p.release
        (waits_after release armed p && not (is_short release armed p))
        (scan_press p s).0
      × ((scan_press p s).1 ≡ report release armed p)
unfolding scan_press
scan_press_lem p release armed s v =
    let (v1, f1) = pressed_lem release p.start armed s v in
    let (v2, f2) = held_lem p.held p.start release armed (scan_settled true p.start s).0 v1 in
    let kept = (scan_level true p.held (scan_settled true p.start s).0).0 in
    let (v3, f3) =
      release_lem p.start release p.release (is_long p) (armed && not (is_long p)) kept v2 in
    let (v4, f4) =
      up_lem p.after p.release (waits_after release armed p) (scan_settled false p.release kept).0
        v3 in
    (v4, rw (f1, f2, f3, f4) refl)

-- From a button that is up, any presses in a row report exactly this: a long press when a scan sees
-- the button down for 600 ms; a double press when a tap, shorter than that, is released at most 250 ms
-- after the release of a tap that still waits; and a short press when a tap waits and a scan before
-- the next press comes more than 250 ms after its release. All differences are of 32 bits.
pub scan_presses_lem :
    (ps : List Press) (release : ℕ) (armed : Bool) (s : BindingState)
    → IsUp release armed s
    → scan_presses ps s ≡ report_all release armed ps
unfolding scan_presses
scan_presses_lem [] release armed s v = refl
scan_presses_lem (p ∷ ps) release armed s v =
    let (w, f) = scan_press_lem p release armed s v in
    ap₂ ◌++◌ f (
      scan_presses_lem ps p.release (waits_after release armed p && not (is_short release armed p))
        (scan_press p s).0 w)

-- Two taps, the second begun before the first was reported and released more than 250 ms after it, are
-- reported as one short press, on a button that was up with no tap waiting.
slow_second_tap :
    (p q : Press) (release : ℕ) (s : BindingState)
    → IsUp release false s
    → is_tap p ≡ true
    → is_long p ≡ false
    → some_late p.release p.after ≡ false
    → is_tap q ≡ true
    → is_long q ≡ false
    → leb (sub32 q.release p.release) double_tap_gap_ms ≡ false
    → some_late q.release q.after ≡ true
    → scan_presses (p ∷ q ∷ []) s ≡ short_press ∷ []
slow_second_tap p q release s v tap long late tap' long' slow late' =
    scan_presses_lem (p ∷ q ∷ []) release false s v
    ∙ rw (tap, long, late, tap', long', slow, late') refl
