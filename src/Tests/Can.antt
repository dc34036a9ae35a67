-- ===== src/Tests/Can.antt =====
-- The CAN driver's bring-up with a caller that gives up, and its supervision in a burst of bus-off.
use canshift_firmware.Prelude.{ℕ, ◌+◌, ◌*◌, ◌≤◌, ◌≡◌, refl, true, false, some, List, [], ◌∷◌}
use canshift_firmware.Scan.{Tick}
use canshift_firmware.Can.Install.{begin, Move, by_task, by_caller, run}
use canshift_firmware.Can.Install.Sound.{IsOver, finish, run-finish}
use canshift_firmware.Can.Manager as Manager
use canshift_firmware.Can.Manager.{fresh, Input, Received, DriverState}
use canshift_firmware.Can.Manager.Bounds.{
  total, losses, is_attempt, is_recovery, is_give_up, is_drop, run_bounds,
}

-- The caller sees the time-out while the task still runs.
abbrev gives_up : List Move
gives_up = by_caller true ∷ by_task true ∷ by_caller true ∷ by_task true ∷ []

run-finish_example :
    let h = run gives_up begin in
    (h.fault ≡ false) × (h.frees ≤ 1) × IsOver (run (finish true true) h)
run-finish_example = run-finish gives_up true true

-- A tick in which the driver, once it is installed, is off the bus.
abbrev off : ℕ → Input
off t = record {
  start_ms = t;
  end_ms = t;
  claims_bus = false;
  scan = Tick.idle;
  installed_since = false;
  installs = true;
  received = Received.timeout;
  status = some (record { state = DriverState.bus_off; missed = 1; overrun = 0 });
  recovery_starts = true;
  restarts = true;
}

abbrev week : List Input
week = off 10 ∷ off 2010 ∷ off 4010 ∷ off 6010 ∷ off 8010 ∷ off 10010 ∷ off 12010 ∷ []

recovers : total is_recovery (Manager.run week fresh).1 ≡ 5
unfolding Manager.run Manager.tick
recovers = refl

run_bounds_example :
    let out = Manager.run_from_boot true week in
    (total is_recovery out.1 ≤ 10)
    × (total is_give_up out.1 ≤ 1)
    × (total is_drop out.1 ≤ 1)
    × (1 ≤ total is_attempt out.1)
    × (total is_attempt out.1 ≤ 7 + 6 * losses week)
    × (out.0.recoveries ≤ 11)
run_bounds_example = run_bounds true week
