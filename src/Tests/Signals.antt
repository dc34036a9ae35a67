-- ===== src/Tests/Signals.antt =====
-- The signal store with natural numbers for values.
use canshift_firmware.Prelude.{
  ℕ, ◌≡◌, refl, Bool, true, false, some, List, [], ◌∷◌, get_elem?, arith,
}
use canshift_firmware.Signals.{
  SignalValue, Store, DisplayStep, init, read, sweep, check_timeouts, expire_if_stale, updated,
}
use canshift_firmware.Signals.Freshness.{IsStore, init-IsStore}
use canshift_firmware.Signals.History.{
  Op, on_update, on_set_timeout, on_check_timeouts, run, slot_run, slot-run,
}
use canshift_firmware.Signals.Lifetime.{wrapped, read-run}
use canshift_firmware.Signals.Race.{
  early_sweep_expires_fresh_value, update_between, update_between_never_expires,
}

abbrev finite : ℕ → Bool
finite value = true

abbrev newest : DisplayStep ℕ
newest id displayed value elapsed valid = value

abbrev empty : Store ℕ
empty = init 0 (record { signals = []; any_valid = false; non_finite_reported = false })

abbrev slot : SignalValue ℕ
slot = record { raw = 0; display = 0; last_update_ms = 0; valid = false; timeout_ms = 500 }

abbrev calls : List (Op ℕ)
calls =
    on_update 3 70 1000 ∷ on_set_timeout 3 200 ∷ on_update 5 9 1100 ∷ on_check_timeouts 1300 ∷ []

slot-run_example :
    (get_elem? (run finite newest calls empty).signals 3
      ≡ some (slot_run finite newest 3 calls slot))
    × IsStore (run finite newest calls empty)
unfolding init
slot-run_example =
    slot-run finite newest calls empty 3 slot
      (init-IsStore 0 (record { signals = []; any_valid = false; non_finite_reported = false }))
      refl

-- The clock wraps around between the writing and the sweep, which comes in time.
abbrev over_the_turn : List (Op ℕ)
over_the_turn = on_update 5 9 4294967200 ∷ on_set_timeout 4 10 ∷ on_check_timeouts 4294967346 ∷ []

read-run_example :
    read 3 0 (
      run finite newest
        (wrapped (on_set_timeout 3 200 ∷ on_update 3 70 4294967196 ∷ over_the_turn))
        empty)
    ≡ 70
unfolding init
read-run_example =
    read-run finite newest over_the_turn 3 200 4294967196 70 0 empty
      (init-IsStore 0 (record { signals = []; any_valid = false; non_finite_reported = false }))
      (omega arith) refl refl refl

early_sweep_expires_fresh_value_example :
    (expire_if_stale 1000 (updated newest 3 70 1001 slot)).0.valid ≡ false
early_sweep_expires_fresh_value_example =
    early_sweep_expires_fresh_value 1000 1001 slot newest 3 70 (omega arith) (omega arith)
      (omega arith)

update_between_never_expires_example :
    read 3 0 (check_timeouts 900000 (update_between finite newest 3 70 1000 1001 empty)) ≡ 70
unfolding init sweep
update_between_never_expires_example =
    update_between_never_expires finite newest 3 70 0 1000 1001 900000 empty
      (init-IsStore 0 (record { signals = []; any_valid = false; non_finite_reported = false }))
      (omega arith) refl refl
