-- ===== src/Signals/Race.antt =====
-- `SignalStore::update` runs on the CAN task and `checkTimeouts` on the page manager's task, on the
-- other core. Their critical sections are taken apart from the clock reads and from the stores to
-- `s_anyValid` beside them (src/runtime/signal_store.cpp, src/ui/page_manager.cpp).
use canshift_firmware.Prelude.{
  ℕ, ◌+◌, ◌<◌, ◌≡◌, subst, sym, Bool, true, false, [], ◌∷◌, arith, get_elem?_in_range, ◌^◌, ◌-◌,
}
use canshift_firmware.Signals.{
  SignalValue, Store, DisplayStep, max_signals, expire_if_stale, updated, mark_any_valid, update,
  read, sweep, check_timeouts,
}
use canshift_firmware.Signals.Freshness.{IsStore, expire_all_lem}
use canshift_firmware.Signals.History.{on_update, slot-run}

module _ {Float : Type 0} where
  -- A sweep that read its clock at `now` and waited for the lock while an update of a later `millis`
  -- took it: the age wraps around, and the value just written is not valid any more.
  pub early_sweep_expires_fresh_value :
      (now later : ℕ) (sig : SignalValue Float) (display_step : DisplayStep Float) (id : ℕ)
      (value : Float)
      → now < later
      → later < 2 ^ 32
      → sig.timeout_ms + (later - now) < 2 ^ 32
      → (expire_if_stale now (updated display_step id value later sig)).0.valid ≡ false
  unfolding expire_if_stale
  early_sweep_expires_fresh_value now later sig display_step id value a b c = ground arith

  -- The sweep's critical section, then a whole update, then the sweep's store to `s_anyValid`.
  abbrev pub update_between :
      (Float → Bool) → DisplayStep Float → ℕ → Float → ℕ → ℕ → Store Float → Store Float
  update_between is_finite display_step id value now later s =
      let (s', still_valid) = sweep now s in
      mark_any_valid still_valid (update is_finite display_step id value later s')

  swept-IsStore :
      (now : ℕ) (s : Store Float) → IsStore s → (sweep now s).1 ≡ false → IsStore (sweep now s).0
  unfolding sweep
  swept-IsStore now s v e = ground (arith, expire_all_lem now s.signals, v.size)

  read_updated :
      (is_finite : Float → Bool) (display_step : DisplayStep Float) (id : ℕ) (value default : Float)
      (now : ℕ) (s : Store Float)
      → IsStore s
      → id < max_signals
      → is_finite value ≡ true
      → read id default (update is_finite display_step id value now s) ≡ value
  unfolding read
  read_updated is_finite display_step id value default now s v b f =
      let slot = get_elem?_in_range s.signals id (subst (λ n. id < n) (sym v.size) b) in
      let written =
        slot-run is_finite display_step (on_update id value now ∷ []) s id slot.0 v slot.1 in
      ground (arith, written.0)

  -- When no slot survives a sweep and an update comes before the sweep's last store, the slot stays
  -- valid with its value at every later sweep, whatever its age.
  pub update_between_never_expires :
      (is_finite : Float → Bool) (display_step : DisplayStep Float) (id : ℕ) (value default : Float)
      (now later at : ℕ) (s : Store Float)
      → IsStore s
      → id < max_signals
      → is_finite value ≡ true
      → (sweep now s).1 ≡ false
      → read id default
          (check_timeouts at (update_between is_finite display_step id value now later s))
        ≡ value
  unfolding read check_timeouts mark_any_valid
  update_between_never_expires is_finite display_step id value default now later at s v b f e =
      let fresh =
        read_updated is_finite display_step id value default later (sweep now s).0
          (swept-IsStore now s v e) b f in
      rw (e, check_timeouts) fresh
