-- ===== src/Signals/History.antt =====
-- Sequences of operations on the signal store of src/runtime/signal_store.cpp, seen from one slot.
use canshift_firmware.Prelude.{
  ℕ, zero, suc, ◌<◌, ◌≡◌, ◌≢◌, inl, inr, refl, ap, ◌∙◌, subst, sym, Bool, ◌&&◌, some, List, [], ◌∷◌,
  if◌then◌else◌, ltb, ◌==◌, length, arith, Bool-cases, Option-cases, get_elem?, get_elem?-set_self,
  get_elem?-set_ne, lt→ltb, ℕ_discrete,
}
use canshift_firmware.Signals.{
  SignalValue, Store, DisplayStep, max_signals, expire_if_stale, accepts_value, updated,
  update_slot, mark_any_valid, update, set_timeout, check_timeouts,
}
use canshift_firmware.Signals.Freshness.{
  IsStore, update-IsStore, set_timeout-IsStore, check_timeouts-IsStore, check_timeouts_lem, expired,
}

-- The calls that change the store; an update and a sweep carry what `millis` returned to them.
pub data Op (Float : Type 0) : Type 0 where
  on_update : ℕ → Float → ℕ → Op Float
  on_set_timeout : ℕ → ℕ → Op Float
  on_check_timeouts : ℕ → Op Float

module _ {Float : Type 0} (is_finite : Float → Bool) (display_step : DisplayStep Float) where
  abbrev pub step : Op Float → Store Float → Store Float
  step (on_update id value now) s = update is_finite display_step id value now s
  step (on_set_timeout id timeout_ms) s = set_timeout id timeout_ms s
  step (on_check_timeouts now) s = check_timeouts now s

  abbrev pub run : List (Op Float) → Store Float → Store Float
  run [] s = s
  run (op ∷ ops) s = run ops (step op s)

  -- What one operation does to the slot of signal `i`, whatever the other slots hold.
  abbrev pub slot_step : ℕ → Op Float → SignalValue Float → SignalValue Float
  slot_step i (on_update id value now) sig =
      if (id == i) && is_finite value then updated display_step id value now sig else sig
  slot_step i (on_set_timeout id timeout_ms) sig =
      if id == i then record sig { timeout_ms = timeout_ms } else sig
  slot_step i (on_check_timeouts now) sig = (expire_if_stale now sig).0

  abbrev pub slot_run : ℕ → List (Op Float) → SignalValue Float → SignalValue Float
  slot_run i [] sig = sig
  slot_run i (op ∷ ops) sig = slot_run i ops (slot_step i op sig)

  step-IsStore : (op : Op Float) (s : Store Float) → IsStore s → IsStore (step op s)
  step-IsStore (on_update id value now) s v = update-IsStore is_finite display_step id value now s v
  step-IsStore (on_set_timeout id timeout_ms) s v = set_timeout-IsStore id timeout_ms s v
  step-IsStore (on_check_timeouts now) s v = check_timeouts-IsStore now s v

  in_range :
      (sigs : List (SignalValue Float)) (i : ℕ) (sig : SignalValue Float)
      → get_elem? sigs i ≡ some sig
      → i < length sigs
  in_range [] i sig e = ground arith
  in_range (x ∷ sigs) zero sig e = omega arith
  in_range (x ∷ sigs) (suc i) sig e = omega (arith, in_range sigs i sig e)

  update_slot_self :
      (id : ℕ) (value : Float) (now : ℕ) (s : Store Float) (sig : SignalValue Float)
      → get_elem? s.signals id ≡ some sig
      → get_elem? (update_slot display_step id value now s).signals id
        ≡ some (updated display_step id value now sig)
  unfolding update_slot
  update_slot_self id value now s sig e =
      rw (e, update_slot) (get_elem?-set_self s.signals id _ (in_range s.signals id sig e))

  update_slot_ne :
      (id i : ℕ) (value : Float) (now : ℕ) (s : Store Float)
      → id ≢ i
      → get_elem? (update_slot display_step id value now s).signals i ≡ get_elem? s.signals i
  unfolding update_slot
  update_slot_ne id i value now s h = elim (Option-cases (get_elem? s.signals id)) [
    | inl e ↦ rw (e, update_slot) refl
    | inr e ↦ rw (e.1, update_slot) (get_elem?-set_ne s.signals id i _ h)
  ]

  slot_update :
      (id i : ℕ) (value : Float) (now : ℕ) (s : Store Float) (sig : SignalValue Float)
      → IsStore s
      → get_elem? s.signals i ≡ some sig
      → get_elem? (update is_finite display_step id value now s).signals i
        ≡ some (slot_step i (on_update id value now) sig)
  unfolding update accepts_value mark_any_valid
  slot_update id i value now s sig v e = elim (ℕ_discrete id i) [
    | yes p ↦
        (let e' = subst (λ j. get_elem? s.signals j ≡ some sig) (sym p) e in
          let same =
            subst
              (λ j.
                get_elem? (update_slot display_step id value now s).signals j
                ≡ some (updated display_step id value now sig))
              p (update_slot_self id value now s sig e') in
          ground (arith, in_range s.signals i sig e, v.size, same))
    | no h ↦ ground (arith, update_slot_ne id i value now s h)
  ]

  set_timeout_self :
      (id timeout_ms : ℕ) (s : Store Float) (sig : SignalValue Float)
      → IsStore s
      → get_elem? s.signals id ≡ some sig
      → get_elem? (set_timeout id timeout_ms s).signals id
        ≡ some (record sig { timeout_ms = timeout_ms })
  unfolding set_timeout
  set_timeout_self id timeout_ms s sig v e =
      let bound = in_range s.signals id sig e in
      let known = lt→ltb id max_signals (subst (λ n. id < n) v.size bound) in
      rw (known, e, set_timeout) (get_elem?-set_self s.signals id _ bound)

  set_timeout_ne :
      (id i timeout_ms : ℕ) (s : Store Float)
      → id ≢ i
      → get_elem? (set_timeout id timeout_ms s).signals i ≡ get_elem? s.signals i
  unfolding set_timeout
  set_timeout_ne id i timeout_ms s h = elim (Bool-cases (ltb id max_signals)) [
    | inl k ↦ elim (Option-cases (get_elem? s.signals id)) [
      | inl e ↦ rw (k, e, set_timeout) refl
      | inr e ↦ rw (k, e.1, set_timeout) (get_elem?-set_ne s.signals id i _ h)
    ]
    | inr k ↦ rw (k, set_timeout) refl
  ]

  slot_timeout :
      (id i timeout_ms : ℕ) (s : Store Float) (sig : SignalValue Float)
      → IsStore s
      → get_elem? s.signals i ≡ some sig
      → get_elem? (set_timeout id timeout_ms s).signals i
        ≡ some (slot_step i (on_set_timeout id timeout_ms) sig)
  slot_timeout id i timeout_ms s sig v e = elim (ℕ_discrete id i) [
    | yes p ↦
        (let e' = subst (λ j. get_elem? s.signals j ≡ some sig) (sym p) e in
          let same =
            subst
              (λ j.
                get_elem? (set_timeout id timeout_ms s).signals j
                ≡ some (record sig { timeout_ms = timeout_ms }))
              p (set_timeout_self id timeout_ms s sig v e') in
          ground (arith, same))
    | no h ↦ ground (arith, set_timeout_ne id i timeout_ms s h)
  ]

  slot-step :
      (op : Op Float) (s : Store Float) (i : ℕ) (sig : SignalValue Float)
      → IsStore s
      → get_elem? s.signals i ≡ some sig
      → get_elem? (step op s).signals i ≡ some (slot_step i op sig)
  slot-step (on_update id value now) s i sig v e = slot_update id i value now s sig v e
  slot-step (on_set_timeout id timeout_ms) s i sig v e = slot_timeout id i timeout_ms s sig v e
  slot-step (on_check_timeouts now) s i sig v e = check_timeouts_lem now s i v ∙ ap (expired now) e

  -- From a store in order, what any sequence of updates, timeout settings and sweeps leaves in a
  -- slot is that sequence applied to this slot alone: a refused value, another signal's calls and
  -- the shortcut through `s_anyValid` leave no trace in it.
  pub slot-run :
      (ops : List (Op Float)) (s : Store Float) (i : ℕ) (sig : SignalValue Float)
      → IsStore s
      → get_elem? s.signals i ≡ some sig
      → (get_elem? (run ops s).signals i ≡ some (slot_run i ops sig)) × IsStore (run ops s)
  slot-run [] s i sig v e = (e, v)
  slot-run (op ∷ ops) s i sig v e =
      slot-run ops (step op s) i (slot_step i op sig) (step-IsStore op s v)
        (slot-step op s i sig v e)
