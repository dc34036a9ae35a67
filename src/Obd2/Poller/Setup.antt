-- ===== src/Obd2/Poller/Setup.antt =====
-- Which slots `Obd2Poller::init` makes of a configuration, and its first tick.
use canshift_firmware.Prelude.{
  ℕ, zero, suc, ◌+◌, ◌≤◌, ◌<◌, ◌≡◌, refl, not, ◌&&◌, some, List, [], ◌∷◌, ◌++◌, ◌==◌, if◌then◌else◌,
  length, length-append, arith, take, append-nil, append_assoc,
}
use canshift_firmware.Obd2.Poller.{
  Poller, PollSlot, SignalDef, add_poll_slot, add_poll_slots, fill_poll_slot, init, tick,
  max_poll_slots, signal_count, no_slots,
}

module _ {Float Name : Type 0} (signal_id_from_name : Name → ℕ) (millis : ℕ → ℕ) where
  -- The definitions that are polled and have a catalogued name.
  pub polled : List (SignalDef Name Float) → List (SignalDef Name Float)
  polled [] = []
  polled (def ∷ defs) =
      if not (def.poll_interval_ms == 0) && not (signal_id_from_name def.name == signal_count)
      then def ∷ polled defs
      else polled defs

  -- Their slots, staggered behind `i` slots.
  pub staggered : ℕ → List (SignalDef Name Float) → List (PollSlot Float)
  staggered i [] = []
  staggered i (def ∷ defs) =
      fill_poll_slot millis (i + 1) def (signal_id_from_name def.name) ∷ staggered (i + 1) defs

  add_poll_slots_lem :
      (defs : List (SignalDef Name Float)) (n room : ℕ) (p : Poller Float)
      → length p.slots ≡ n
      → n + room ≡ max_poll_slots
      → ((add_poll_slots signal_id_from_name millis defs p).slots
          ≡ p.slots ++ staggered n (take room (polled defs)))
        × ((add_poll_slots signal_id_from_name millis defs p).next_due_ms ≡ p.next_due_ms)
  unfolding add_poll_slots polled staggered
  add_poll_slots_lem [] n zero p e h = ground (arith, append-nil p.slots)
  add_poll_slots_lem [] n (suc room) p e h = ground (arith, append-nil p.slots)
  add_poll_slots_lem (def ∷ defs) n zero p e h = ground (
    arith,
    add_poll_slots_lem defs n 0 (add_poll_slot signal_id_from_name millis def p),
    append-nil p.slots,
  )
  add_poll_slots_lem (def ∷ defs) n (suc room) p e h =
      let slot = fill_poll_slot millis (n + 1) def (signal_id_from_name def.name) in
      let p' = add_poll_slot signal_id_from_name millis def p in
      ground (
        arith,
        add_poll_slots_lem defs n (suc room) p',
        add_poll_slots_lem defs (n + 1) room p',
        length-append p.slots (slot ∷ []),
        append_assoc p.slots (slot ∷ []) (staggered (n + 1) (take room (polled defs))),
      )

  -- `Obd2Poller::init` makes one slot for each polled definition with a catalogued name, in the
  -- order of the configuration, due 25 ms times its one-based place after the clock, and keeps 48.
  init_slots :
      (defs : List (SignalDef Name Float))
      → (init signal_id_from_name millis (some defs)).slots
        ≡ staggered 0 (take max_poll_slots (polled defs))
  unfolding init
  init_slots defs = (add_poll_slots_lem defs 0 max_poll_slots no_slots refl refl).0

  -- `s_nextDueMs` starts at 0, which the wrapping clock counts as later than the second half of its
  -- range: a poller that is set up then sends nothing at any time in that half, whatever is due.
  pub init_stalls :
      (defs : List (SignalDef Name Float)) (now : ℕ)
      → 2147483648 ≤ now
      → now < 4294967296
      → let p = init signal_id_from_name millis (some defs) in tick now p ≡ (p, [])
  unfolding init tick
  init_stalls defs now late word =
      ground (arith, add_poll_slots_lem defs 0 max_poll_slots no_slots refl refl)
