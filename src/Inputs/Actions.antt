-- ===== src/Inputs/Actions.antt =====
-- What one pass of src/runtime/input_buttons.cpp over the bindings does.
use canshift_firmware.Prelude.{
  ℕ, ◌≡◌, refl, ap, Bool, true, none, some, List, [], ◌∷◌, ◌++◌, Bool-cases, Option-cases, inl, inr,
  map, All,
}
use canshift_firmware.Inputs.{
  Binding, BindingState, Effect, acknowledge, PressKind, kind_eq, is_pressed_now, scan_binding,
  fire_press, fire_all, scan_pin, scan_each, after_effects,
}

module _ {Action : Type 0} where
  abbrev pub IsAcknowledge : Effect Action → Type 0
  IsAcknowledge e = e ≡ acknowledge

  append-All :
      (xs ys : List (Effect Action))
      → All IsAcknowledge xs
      → All IsAcknowledge ys
      → All IsAcknowledge (xs ++ ys)
  append-All [] ys v w = w
  append-All (x ∷ xs) ys v w = (v.0, append-All xs ys v.1 w)

  fire_all-All :
      (signal_id_from_name : List ℕ → ℕ) (is_on : ℕ → Bool) (b : Binding Action)
      (kinds : List PressKind)
      → All IsAcknowledge (fire_all signal_id_from_name is_on true b kinds)
  unfolding fire_all fire_press
  fire_all-All signal_id_from_name is_on b [] = tt
  fire_all-All signal_id_from_name is_on b (kind ∷ kinds) =
      elim (Bool-cases (kind_eq b.kind kind)) [
        | inl e ↦ rw e (refl, fire_all-All signal_id_from_name is_on b kinds)
        | inr e ↦ rw e (fire_all-All signal_id_from_name is_on b kinds)
      ]

  -- The state of one binding after a pass: a binding without a pin keeps its own.
  abbrev pub passed : (ℕ → Bool) → ℕ → Binding Action × BindingState → Binding Action × BindingState
  passed high now (b, s) = (
    b,
    elim b.pin [
      | none ↦ s
      | some pin ↦ (scan_binding b.debounce_ms (is_pressed_now b.active (high pin)) now s).0
    ],
  )

  scan_each_states :
      (signal_id_from_name : List ℕ → ℕ) (is_on : ℕ → Bool) (takeover : Bool) (high : ℕ → Bool)
      (now : ℕ) (bs : List (Binding Action × BindingState))
      → (scan_each signal_id_from_name is_on takeover high now bs).0 ≡ map (passed high now) bs
  unfolding scan_each scan_pin
  scan_each_states signal_id_from_name is_on takeover high now [] = refl
  scan_each_states signal_id_from_name is_on takeover high now ((b, s) ∷ rest) =
      elim (Option-cases b.pin) [
        | inl e ↦
            simp (e, passed, scan_each)
              (ap (λ r. (b, s) ∷ r)
                (scan_each_states signal_id_from_name is_on takeover high now rest))
        | inr (pin, e) ↦
            let (s', effects) = scan_pin signal_id_from_name is_on takeover (high pin) now b s in
            simp (e, passed, scan_each)
              (ap (λ r. (b, s') ∷ r)
                (scan_each_states signal_id_from_name (after_effects effects is_on) takeover high
                  now rest))
      ]

  scan_each_acknowledges :
      (signal_id_from_name : List ℕ → ℕ) (is_on : ℕ → Bool) (high : ℕ → Bool) (now : ℕ)
      (bs : List (Binding Action × BindingState))
      → All IsAcknowledge (scan_each signal_id_from_name is_on true high now bs).1
  unfolding scan_each scan_pin
  scan_each_acknowledges signal_id_from_name is_on high now [] = tt
  scan_each_acknowledges signal_id_from_name is_on high now ((b, s) ∷ rest) =
      elim (Option-cases b.pin) [
        | inl e ↦ rw e (scan_each_acknowledges signal_id_from_name is_on high now rest)
        | inr (pin, e) ↦
            let (s', effects) = scan_pin signal_id_from_name is_on true (high pin) now b s in
            rw e (
              append-All effects
                (scan_each signal_id_from_name (after_effects effects is_on) true high now rest).1
                (fire_all-All signal_id_from_name is_on b
                  (scan_binding b.debounce_ms (is_pressed_now b.active (high pin)) now s).1)
                (scan_each_acknowledges signal_id_from_name (after_effects effects is_on) high now
                  rest))
      ]

  -- A pass over the bindings advances each of them by its own pin, whatever the others do and whether
  -- an alert is up; and while an alert is up, it dispatches no action and sets no signal, and what it
  -- does is acknowledge.
  pub scan_each_lem :
      (signal_id_from_name : List ℕ → ℕ) (is_on : ℕ → Bool) (takeover : Bool) (high : ℕ → Bool)
      (now : ℕ) (bs : List (Binding Action × BindingState))
      → ((scan_each signal_id_from_name is_on takeover high now bs).0 ≡ map (passed high now) bs)
        × All IsAcknowledge (scan_each signal_id_from_name is_on true high now bs).1
  scan_each_lem signal_id_from_name is_on takeover high now bs = (
    scan_each_states signal_id_from_name is_on takeover high now bs,
    scan_each_acknowledges signal_id_from_name is_on high now bs,
  )
