-- ===== src/Inputs/Debounce.antt =====
-- Which scans of a pin src/runtime/input_buttons.cpp acts on.
use canshift_firmware.Prelude.{
  ℕ, ◌≡◌, refl, ap₂, inl, inr, ◌∙◌, Bool, true, false, List, [], ◌∷◌, ◌++◌, if◌then◌else◌, ltb,
  sub32, arith, Bool-cases,
}
use canshift_firmware.Inputs.{
  PressKind, BindingState, scan_settled, scan_binding, note_edge, handle_edge, edge_of,
  flush_pending_short_press, on_pressed, on_released, on_holding, register_tap,
}

-- The level read, and the clock.
abbrev pub Scan : Type 0
Scan = Bool × ℕ

unfoldable pub scan_all : ℕ → List Scan → BindingState → List PressKind
scan_all debounce_ms [] s = []
scan_all debounce_ms ((raw, now) ∷ scans) s =
    let (s', fired) = scan_binding debounce_ms raw now s in fired ++ scan_all debounce_ms scans s'

unfoldable pub scan_all_settled : List Scan → BindingState → List PressKind
scan_all_settled [] s = []
scan_all_settled ((raw, now) ∷ scans) s =
    let (s', fired) = scan_settled raw now s in fired ++ scan_all_settled scans s'

-- When the level was last seen to change, given the level and the time of the scan before.
abbrev pub edge_time : Bool → ℕ → Scan → ℕ
edge_time true edge (true, now) = edge
edge_time false edge (false, now) = edge
edge_time true edge (false, now) = now
edge_time false edge (true, now) = now

-- The scans at which the level has lasted for `debounce_ms` since it was last seen to change.
abbrev pub settled : ℕ → Bool → ℕ → List Scan → List Scan
settled debounce_ms before edge [] = []
settled debounce_ms before edge ((raw, now) ∷ scans) =
    let rest = settled debounce_ms raw (edge_time before edge (raw, now)) scans in
    if ltb (sub32 now (edge_time before edge (raw, now))) debounce_ms
    then rest
    else (raw, now) ∷ rest

-- The two states agree on all but the debouncing.
record Agree (s t : BindingState) : Type 0 where
  down : s.debounced_pressed ≡ t.debounced_pressed
  start : s.press_start_ms ≡ t.press_start_ms
  last : s.last_release_ms ≡ t.last_release_ms
  long : s.long_fired_this_press ≡ t.long_fired_this_press
  armed : s.pending_double_armed ≡ t.pending_double_armed

note_edge-Agree :
    (raw : Bool) (now : ℕ) (s t : BindingState)
    → Agree s t
    → Agree (note_edge raw now s) t
      × ((note_edge raw now s).raw_prev ≡ raw)
      × ((note_edge raw now s).last_edge_ms ≡ edge_time s.raw_prev s.last_edge_ms (raw, now))
unfolding note_edge
note_edge-Agree true now s t v = ground (arith, v.down, v.start, v.last, v.long, v.armed)
note_edge-Agree false now s t v = ground (arith, v.down, v.start, v.last, v.long, v.armed)

scan_settled-Agree :
    (raw : Bool) (now : ℕ) (s t : BindingState)
    → Agree s t
    → Agree (scan_settled raw now s).0 (scan_settled raw now t).0
      × ((scan_settled raw now s).1 ≡ (scan_settled raw now t).1)
      × ((scan_settled raw now s).0.raw_prev ≡ s.raw_prev)
      × ((scan_settled raw now s).0.last_edge_ms ≡ s.last_edge_ms)
unfolding scan_settled edge_of handle_edge on_pressed on_released on_holding register_tap
    flush_pending_short_press
scan_settled-Agree true now s t v = ground (arith, v.down, v.start, v.last, v.long, v.armed)
scan_settled-Agree false now s t v = ground (arith, v.down, v.start, v.last, v.long, v.armed)

bounces :
    (debounce_ms now : ℕ) (raw : Bool) (s : BindingState)
    → ltb (sub32 now (note_edge raw now s).last_edge_ms) debounce_ms ≡ true
    → scan_binding debounce_ms raw now s ≡ (note_edge raw now s, [])
unfolding scan_binding note_edge
bounces debounce_ms now raw s e = rw (e, scan_binding) refl

acts :
    (debounce_ms now : ℕ) (raw : Bool) (s : BindingState)
    → ltb (sub32 now (note_edge raw now s).last_edge_ms) debounce_ms ≡ false
    → scan_binding debounce_ms raw now s ≡ scan_settled raw now (note_edge raw now s)
unfolding scan_binding note_edge
acts debounce_ms now raw s e = rw (e, scan_binding) refl

scan_all_lem :
    (debounce_ms edge : ℕ) (before : Bool) (scans : List Scan) (s t : BindingState)
    → Agree s t
    → s.raw_prev ≡ before
    → s.last_edge_ms ≡ edge
    → scan_all debounce_ms scans s ≡ scan_all_settled (settled debounce_ms before edge scans) t
unfolding scan_all scan_all_settled
scan_all_lem debounce_ms edge before [] s t v p q = refl
scan_all_lem debounce_ms edge before ((raw, now) ∷ scans) s t v p q =
    let (noted, level, since) = note_edge-Agree raw now s t v in
    let since' : (note_edge raw now s).last_edge_ms ≡ edge_time before edge (raw, now) =
      since ∙ ap₂ (λ b e. edge_time b e (raw, now)) p q in
    elim (Bool-cases (ltb (sub32 now (edge_time before edge (raw, now))) debounce_ms)) [
      | inl e ↦
          let same = bounces debounce_ms now raw s (rw since' e) in
          rw (same, e)
            (scan_all_lem debounce_ms (edge_time before edge (raw, now)) raw scans
              (note_edge raw now s) t noted level since')
      | inr e ↦
          let same = acts debounce_ms now raw s (rw since' e) in
          let (kept, fired, level', edge') =
            scan_settled-Agree raw now (note_edge raw now s) t noted in
          rw (same, e)
            (ap₂ ◌++◌ fired (
              scan_all_lem debounce_ms (edge_time before edge (raw, now)) raw scans
                (scan_settled raw now (note_edge raw now s)).0 (scan_settled raw now t).0 kept
                (level' ∙ level) (edge' ∙ since')))
    ]

-- Over any scans a binding reports exactly what it would report, without any debouncing, on the scans
-- at which the level has lasted for the binding's time since it was last seen to change.
pub scan_all-settled :
    (debounce_ms : ℕ) (scans : List Scan) (s : BindingState)
    → scan_all debounce_ms scans s
      ≡ scan_all_settled (settled debounce_ms s.raw_prev s.last_edge_ms scans) s
scan_all-settled debounce_ms scans s =
    scan_all_lem debounce_ms s.last_edge_ms s.raw_prev scans s s
      (record { down = refl; start = refl; last = refl; long = refl; armed = refl }) refl refl
