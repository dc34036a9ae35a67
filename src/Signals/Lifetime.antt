-- ===== src/Signals/Lifetime.antt =====
-- How long a value of src/runtime/signal_store.cpp lives, in milliseconds that do not wrap around.
use canshift_firmware.Prelude.{
  ℕ, ◌+◌, ◌-◌, ◌^◌, ◌≤◌, ◌<◌, ◌≡◌, refl, subst, sym, Bool, true, false, not, ◌&&◌, ◌||◌, List, [],
  ◌∷◌, if◌then◌else◌, ltb, leb, ◌==◌, arith, get_elem?_in_range, u32, sub32,
}
use canshift_firmware.Signals.{
  SignalValue, Store, DisplayStep, max_signals, expire_if_stale, updated, read,
}
use canshift_firmware.Signals.Freshness.{IsStore}
use canshift_firmware.Signals.History.{
  Op, on_update, on_set_timeout, on_check_timeouts, run, slot_run, slot-run,
}

wrapped_age : (t at : ℕ) → t ≤ at → at < t + 2 ^ 32 → sub32 (u32 at) (u32 t) ≡ at - t
wrapped_age t at a b = omega arith

module _ {Float : Type 0} where
  -- The calls as the store gets them: `millis` returns the time below 2^32.
  abbrev pub wrapped : List (Op Float) → List (Op Float)
  wrapped [] = []
  wrapped (on_update id value at ∷ ops) = on_update id value (u32 at) ∷ wrapped ops
  wrapped (on_set_timeout id timeout_ms ∷ ops) = on_set_timeout id timeout_ms ∷ wrapped ops
  wrapped (on_check_timeouts at ∷ ops) = on_check_timeouts (u32 at) ∷ wrapped ops

  -- No call writes the signal or sets its timeout.
  abbrev pub spares : (Float → Bool) → ℕ → List (Op Float) → Bool
  spares is_finite i [] = true
  spares is_finite i (on_update id value at ∷ ops) =
      not ((id == i) && is_finite value) && spares is_finite i ops
  spares is_finite i (on_set_timeout id timeout_ms ∷ ops) = not (id == i) && spares is_finite i ops
  spares is_finite i (on_check_timeouts at ∷ ops) = spares is_finite i ops

  -- Every sweep comes within a turn of the clock from the time on.
  abbrev pub within_turn : ℕ → List (Op Float) → Bool
  within_turn t [] = true
  within_turn t (on_update id value at ∷ ops) = within_turn t ops
  within_turn t (on_set_timeout id timeout_ms ∷ ops) = within_turn t ops
  within_turn t (on_check_timeouts at ∷ ops) =
      leb t at && (ltb at (t + 2 ^ 32) && within_turn t ops)

  -- A sweep comes after the time.
  abbrev pub swept_after : ℕ → List (Op Float) → Bool
  swept_after end [] = false
  swept_after end (on_update id value at ∷ ops) = swept_after end ops
  swept_after end (on_set_timeout id timeout_ms ∷ ops) = swept_after end ops
  swept_after end (on_check_timeouts at ∷ ops) = ltb end at || swept_after end ops

module _ {Float : Type 0} (is_finite : Float → Bool) (display_step : DisplayStep Float) where
  abbrev Lives : ℕ → ℕ → List (Op Float) → SignalValue Float → SignalValue Float → Type 0
  Lives t timeout_ms ops sig out =
      (out.valid ≡ (sig.valid && not (swept_after (t + timeout_ms) ops))) × (out.raw ≡ sig.raw)

  swept_slot :
      (t at timeout_ms : ℕ) (sig : SignalValue Float)
      → t ≤ at
      → at < t + 2 ^ 32
      → sig.last_update_ms ≡ u32 t
      → sig.timeout_ms ≡ timeout_ms
      → let out = (expire_if_stale (u32 at) sig).0 in
        (out.valid ≡ (sig.valid && not (ltb (t + timeout_ms) at)))
        × (out.raw ≡ sig.raw)
        × (out.last_update_ms ≡ u32 t)
        × (out.timeout_ms ≡ timeout_ms)
  unfolding expire_if_stale
  swept_slot t at timeout_ms sig a b e k = ground (arith, wrapped_age t at a b)

  slot_run-Lives :
      (ops : List (Op Float)) (i t timeout_ms : ℕ) (sig : SignalValue Float)
      → sig.last_update_ms ≡ u32 t
      → sig.timeout_ms ≡ timeout_ms
      → spares is_finite i ops ≡ true
      → within_turn t ops ≡ true
      → Lives t timeout_ms ops sig (slot_run is_finite display_step i (wrapped ops) sig)
  slot_run-Lives [] i t timeout_ms sig e k a b = ground arith
  slot_run-Lives (on_update id value at ∷ ops) i t timeout_ms sig e k a b =
      ground (arith, slot_run-Lives ops i t timeout_ms sig e k)
  slot_run-Lives (on_set_timeout id ms ∷ ops) i t timeout_ms sig e k a b =
      ground (arith, slot_run-Lives ops i t timeout_ms sig e k)
  slot_run-Lives (on_check_timeouts at ∷ ops) i t timeout_ms sig e k a b =
      let (v, r, e', k') = swept_slot t at timeout_ms sig (ground arith) (ground arith) e k in
      let rest =
        slot_run-Lives ops i t timeout_ms (expire_if_stale (u32 at) sig).0 e' k' a (ground arith) in
      ground (arith, v, r, rest)

  -- A value that is finite is written at a time for a known signal of a store in order, whose timeout was
  -- set before, and calls follow that neither write the signal nor set its timeout, every sweep within a
  -- turn of the 32-bit clock from the writing on: the signal reads as the value until a sweep comes more
  -- than the timeout after the writing, and from then on as the reader's default.
  pub read-run :
      (ops : List (Op Float)) (i timeout_ms t : ℕ) (value default : Float) (s : Store Float)
      → IsStore s
      → i < max_signals
      → is_finite value ≡ true
      → spares is_finite i ops ≡ true
      → within_turn t ops ≡ true
      → read i default (
          run is_finite display_step
            (wrapped (on_set_timeout i timeout_ms ∷ on_update i value t ∷ ops))
            s)
        ≡ (if swept_after (t + timeout_ms) ops then default else value)
  unfolding read
  read-run ops i timeout_ms t value default s v b f a c =
      let slot = get_elem?_in_range s.signals i (subst (λ n. i < n) (sym v.size) b) in
      let calls : List (Op Float) = on_set_timeout i timeout_ms ∷ on_update i value t ∷ ops in
      let seen = (slot-run is_finite display_step (wrapped calls) s i slot.0 v slot.1).0 in
      let set : SignalValue Float = (let old = slot.0 in record old { timeout_ms = timeout_ms }) in
      let lives =
        slot_run-Lives ops i t timeout_ms (updated display_step i value (u32 t) set) refl refl a
          c in
      ground (arith, seen, lives)
