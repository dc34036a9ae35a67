-- ===== src/Obd2/Poller/Schedule.antt =====
-- When src/can/obd2_poller.cpp polls: the early return of `tick` skips no slot that is due.
use canshift_firmware.Prelude.{
  ℕ, ◌+◌, ◌≤◌, ◌<◌, ◌≡◌, inl, inr, refl, ap₂, false, List, [], ◌∷◌, ltb, arith, sub32, before32,
  All, Bool-cases,
}
use canshift_firmware.Obd2.Poller.{
  Poller, PollSlot, time_reached, poll_all, earliest_from, earliest_next_poll, tick,
}

-- How far past `base` a time lies, on the 32-bit clock.
abbrev pub after : ℕ → ℕ → ℕ
after base t = sub32 t base

-- The time lies within a quarter turn of the clock after `base`.
pub record Near (base t : ℕ) : Type 0 where
  pub word : t < 4294967296
  pub close : after base t < 1073741824

abbrev pub max_interval_ms : ℕ
max_interval_ms = 60000

-- A slot whose next poll is near, at the interval that the configuration loader lets through.
abbrev pub IsTimed : {Float : Type 0} → ℕ → PollSlot Float → Type 0
IsTimed base slot = Near base slot.next_poll_ms × (slot.interval_ms ≤ max_interval_ms)

module _ (base : ℕ) (small : base < 4294967296) where
  before32-after :
      (a b : ℕ) → Near base a → Near base b → before32 a b ≡ ltb (after base a) (after base b)
  before32-after a b ha hb = ground arith

  -- A slot that comes no earlier than a time not yet reached is not reached either.
  not_due :
      (now due t : ℕ)
      → Near base now
      → Near base due
      → Near base t
      → after base due ≤ after base t
      → time_reached now due ≡ false
      → time_reached now t ≡ false
  unfolding time_reached
  not_due now due t hn hd ht le e = ground arith

module _ {Float : Type 0} where
  -- The frames that a sequence of ticks sends.
  unfoldable pub run_ticks : List ℕ → Poller Float → List (List (List ℕ))
  run_ticks [] p = []
  run_ticks (now ∷ times) p = (tick now p).1 ∷ run_ticks times (tick now p).0

  -- The same with every slot looked at on every tick.
  unfoldable pub run_all : List ℕ → List (PollSlot Float) → List (List (List ℕ))
  run_all [] slots = []
  run_all (now ∷ times) slots = (poll_all now slots).1 ∷ run_all times (poll_all now slots).0

module _ {Float : Type 0} (base : ℕ) (small : base < 4294967296) where
  -- Every slot comes at `m` or later.
  abbrev Least : ℕ → List (PollSlot Float) → Type 0
  Least m = All (λ slot. after base m ≤ after base slot.next_poll_ms)

  -- The minimum of the loop comes at or before its start and every slot.
  earliest_from-Least :
      (m n : ℕ) (slots : List (PollSlot Float))
      → m ≡ earliest_from n slots
      → Near base n
      → All (IsTimed base) slots
      → Near base m × (after base m ≤ after base n) × Least m slots
  unfolding earliest_from
  earliest_from-Least m n [] e hn hs = (rw e hn, rw e (omega arith), tt)
  earliest_from-Least m n (slot ∷ slots) e hn hs =
      elim (Bool-cases (before32 slot.next_poll_ms n)) [
        | inl h ↦
            let ih = earliest_from-Least m slot.next_poll_ms slots (ground arith) hs.0.0 hs.1 in
            let lt = before32-after base small slot.next_poll_ms n hs.0.0 hn in
            (ih.0, ground (arith, ih.1, lt), (ih.1, ih.2))
        | inr h ↦
            let ih = earliest_from-Least m n slots (ground arith) hn hs.1 in
            let le = before32-after base small slot.next_poll_ms n hs.0.0 hn in
            (ih.0, ih.1, (ground (arith, ih.1, le), ih.2))
      ]

  earliest_next_poll-Least :
      (m : ℕ) (slot : PollSlot Float) (slots : List (PollSlot Float))
      → m ≡ earliest_next_poll (slot ∷ slots)
      → All (IsTimed base) (slot ∷ slots)
      → Near base m × Least m (slot ∷ slots)
  unfolding earliest_next_poll
  earliest_next_poll-Least m slot slots e hs =
      let least = earliest_from-Least m slot.next_poll_ms slots e hs.0.0 hs.1 in
      (least.0, (least.1, least.2))

  poll_all_quiet :
      (now due : ℕ) (slots : List (PollSlot Float))
      → Near base now
      → Near base due
      → All (IsTimed base) slots
      → Least due slots
      → time_reached now due ≡ false
      → poll_all now slots ≡ (slots, [])
  unfolding poll_all
  poll_all_quiet now due [] hn hd hs le e = refl
  poll_all_quiet now due (slot ∷ slots) hn hd hs le e = ground (
    arith,
    not_due base small now due slot.next_poll_ms hn hd hs.0.0 le.0 e,
    poll_all_quiet now due slots hn hd hs.1 le.1 e,
  )

  -- `tick` with its early returns does what polling every slot would.
  tick_gate :
      (now : ℕ) (p : Poller Float) (slots : List (PollSlot Float))
      → p.slots ≡ slots
      → Near base now
      → All (IsTimed base) slots
      → p.next_due_ms ≡ earliest_next_poll slots
      → ((tick now p).0.slots ≡ (poll_all now slots).0)
        × ((tick now p).1 ≡ (poll_all now slots).1)
        × ((tick now p).0.next_due_ms ≡ earliest_next_poll (poll_all now slots).0)
  unfolding tick
  tick_gate now p [] e hn hs d = ground arith
  tick_gate now p (slot ∷ slots) e hn hs d =
      let least = earliest_next_poll-Least p.next_due_ms slot slots d hs in
      ground (arith, poll_all_quiet now p.next_due_ms (slot ∷ slots) hn least.0 hs least.1)

  poll_all-IsTimed :
      (now : ℕ) (slots : List (PollSlot Float))
      → Near base now
      → after base now + max_interval_ms < 1073741824
      → All (IsTimed base) slots
      → All (IsTimed base) (poll_all now slots).0
  unfolding poll_all
  poll_all-IsTimed now [] hn room hs = tt
  poll_all-IsTimed now (slot ∷ slots) hn room hs =
      (ground arith, poll_all-IsTimed now slots hn room hs.1)

  run_ticks_from :
      (times : List ℕ) (p : Poller Float) (slots : List (PollSlot Float))
      → p.slots ≡ slots
      → All (λ t. Near base t × (after base t + max_interval_ms < 1073741824)) times
      → All (IsTimed base) slots
      → p.next_due_ms ≡ earliest_next_poll slots
      → run_ticks times p ≡ run_all times slots
  unfolding run_ticks run_all
  run_ticks_from [] p slots e ht hs d = refl
  run_ticks_from (now ∷ times) p slots e ht hs d =
      let gate = tick_gate now p slots e ht.0.0 hs d in
      ap₂ ◌∷◌ gate.1 (
        run_ticks_from times (tick now p).0 (poll_all now slots).0 gate.0 ht.1
          (poll_all-IsTimed now slots ht.0.0 ht.0.1 hs) gate.2)

  -- Once `s_nextDueMs` is the earliest next poll, a sequence of ticks sends exactly the frames that
  -- looking at every slot on every tick would send, as long as all times lie within a quarter turn
  -- of the 32-bit clock and no interval is above the 60 s that the configuration allows.
  pub run_ticks_lem :
      (times : List ℕ) (p : Poller Float)
      → All (λ t. Near base t × (after base t + max_interval_ms < 1073741824)) times
      → All (IsTimed base) p.slots
      → p.next_due_ms ≡ earliest_next_poll p.slots
      → run_ticks times p ≡ run_all times p.slots
  run_ticks_lem times p ht hs d = run_ticks_from times p p.slots refl ht hs d
