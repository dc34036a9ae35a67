-- ===== src/Signals/Freshness.antt =====
-- The signal store of src/runtime/signal_store.cpp with its operations one at a time.
use canshift_firmware.Prelude.{
  ℕ, zero, suc, ◌≡◌, inl, inr, refl, ◌∙◌, sym, Bool, true, false, ◌||◌, Option, none, some, List,
  [], ◌∷◌, ltb, length, arith, Bool-cases, Option-cases, get_elem?, set, length-set,
  length-replicate, replicate,
}
use canshift_firmware.Signals.{
  SignalValue, Store, DisplayStep, max_signals, default_timeout_ms, init, expire_if_stale,
  accepts_value, update_slot, mark_any_valid, update, set_timeout, expire_all, check_timeouts,
}

module _ {Float : Type 0} where
  abbrev pub any_slot : List (SignalValue Float) → Bool
  any_slot [] = false
  any_slot (sig ∷ sigs) = sig.valid || any_slot sigs

  -- There are 64 slots, and a valid one is not forgotten by `s_anyValid`.
  pub record IsStore (s : Store Float) : Type 0 where
    pub size : length s.signals ≡ max_signals
    pub known : any_slot s.signals ≡ true → s.any_valid ≡ true

  any_slot-replicate :
      (n : ℕ) (sig : SignalValue Float) → sig.valid ≡ false → any_slot (replicate n sig) ≡ false
  any_slot-replicate zero sig e = refl
  any_slot-replicate (suc n) sig e = ground (arith, any_slot-replicate n sig e)

  abbrev zero_slot : Float → SignalValue Float
  zero_slot zero_value = record {
    raw = zero_value;
    display = zero_value;
    last_update_ms = 0;
    valid = false;
    timeout_ms = default_timeout_ms;
  }

  pub init-IsStore : (zero_value : Float) (s : Store Float) → IsStore (init zero_value s)
  unfolding init
  init-IsStore zero_value s = record {
    size = length-replicate max_signals (zero_slot zero_value);
    known =
        λ e. absurd (ground (arith, any_slot-replicate max_signals (zero_slot zero_value) refl));
  }

  any_slot-set :
      (sigs : List (SignalValue Float)) (i : ℕ) (old new : SignalValue Float)
      → get_elem? sigs i ≡ some old
      → new.valid ≡ old.valid
      → any_slot (set sigs i new) ≡ any_slot sigs
  any_slot-set [] i old new e v = refl
  any_slot-set (sig ∷ sigs) zero old new e v = ground arith
  any_slot-set (sig ∷ sigs) (suc i) old new e v = ground (arith, any_slot-set sigs i old new e v)

  -- What the sweep does to one slot.
  abbrev pub expired : ℕ → Option (SignalValue Float) → Option (SignalValue Float)
  expired now none = none
  expired now (some sig) = some (expire_if_stale now sig).0

  pub expire_all_lem :
      (now : ℕ) (sigs : List (SignalValue Float))
      → (length (expire_all now sigs).0 ≡ length sigs)
        × ((expire_all now sigs).1 ≡ any_slot (expire_all now sigs).0)
  unfolding expire_all
  expire_all_lem now [] = (refl, refl)
  expire_all_lem now (sig ∷ sigs) = ground (arith, expire_all_lem now sigs)

  get_elem?-expire_all :
      (now : ℕ) (sigs : List (SignalValue Float)) (i : ℕ)
      → get_elem? (expire_all now sigs).0 i ≡ expired now (get_elem? sigs i)
  unfolding expire_all
  get_elem?-expire_all now [] i = refl
  get_elem?-expire_all now (sig ∷ sigs) zero = refl
  get_elem?-expire_all now (sig ∷ sigs) (suc i) = get_elem?-expire_all now sigs i

  -- A slot that is not valid has nothing to expire.
  expired_quiet :
      (now : ℕ) (sigs : List (SignalValue Float)) (i : ℕ)
      → any_slot sigs ≡ false
      → expired now (get_elem? sigs i) ≡ get_elem? sigs i
  unfolding expire_if_stale
  expired_quiet now [] i e = refl
  expired_quiet now (sig ∷ sigs) zero e = ground arith
  expired_quiet now (sig ∷ sigs) (suc i) e = expired_quiet now sigs i (ground arith)

  -- `checkTimeouts` expires every slot by its own age and timeout, also when `s_anyValid` makes it
  -- return at once.
  pub check_timeouts_lem :
      (now : ℕ) (s : Store Float) (i : ℕ)
      → IsStore s
      → get_elem? (check_timeouts now s).signals i ≡ expired now (get_elem? s.signals i)
  unfolding check_timeouts
  check_timeouts_lem now s i v = elim (Bool-cases s.any_valid) [
    | inl e ↦ rw (e, check_timeouts) (get_elem?-expire_all now s.signals i)
    | inr e ↦ rw (e, check_timeouts) (sym (expired_quiet now s.signals i (ground (arith, v.known))))
  ]

  pub check_timeouts-IsStore :
      (now : ℕ) (s : Store Float) → IsStore s → IsStore (check_timeouts now s)
  unfolding check_timeouts
  check_timeouts-IsStore now s v = ground (arith, expire_all_lem now s.signals)

  update_slot-size :
      (display_step : DisplayStep Float) (id : ℕ) (value : Float) (now : ℕ) (s : Store Float)
      → length (update_slot display_step id value now s).signals ≡ length s.signals
  unfolding update_slot
  update_slot-size display_step id value now s = elim (Option-cases (get_elem? s.signals id)) [
    | inl e ↦ rw (e, update_slot) refl
    | inr e ↦ rw (e.1, update_slot) (length-set s.signals id _)
  ]

  pub update-IsStore :
      (is_finite : Float → Bool) (display_step : DisplayStep Float) (id : ℕ) (value : Float)
      (now : ℕ) (s : Store Float)
      → IsStore s
      → IsStore (update is_finite display_step id value now s)
  unfolding update accepts_value mark_any_valid
  update-IsStore is_finite display_step id value now s v =
      ground (arith, update_slot-size display_step id value now s, v.size, v.known)

  pub set_timeout-IsStore :
      (id timeout_ms : ℕ) (s : Store Float) → IsStore s → IsStore (set_timeout id timeout_ms s)
  unfolding set_timeout
  set_timeout-IsStore id timeout_ms s v = elim (Bool-cases (ltb id max_signals)) [
    | inl e ↦ elim (Option-cases (get_elem? s.signals id)) [
      | inl n ↦ rw (e, n, set_timeout) v
      | inr f ↦
          rw (e, f.1, set_timeout)
            (record {
              size = length-set s.signals id _ ∙ v.size;
              known = λ k. v.known (sym (any_slot-set s.signals id f.0 _ f.1 refl) ∙ k);
            })
    ]
    | inr e ↦ rw (e, set_timeout) v
  ]
