-- ===== src/Can/Manager/Bounds.antt =====
-- How often src/can/can_manager.cpp tries and reports things, from the boot on.
use canshift_firmware.Prelude.{
  ℕ, ◌+◌, ◌-◌, ◌*◌, ◌≤◌, ◌≡◌, refl, inl, inr, Bool, true, false, not, ◌&&◌, none, some, List, [],
  ◌∷◌, ◌++◌, if◌then◌else◌, ltb, ◌==◌, ◌/◌, u32, sub32, arith, Option-cases,
}
use canshift_firmware.Can.Manager.{
  Status, DriverState, Input, rx_dropped, bus_down, Effect, attempted, initiated, pushed, Manager,
  fresh, tick_init_retry, take_received, report_rx_drops, bus_action, handle_action, supervise_bus,
  update_stats_window, tick_bus_scan, is_lost, stat_interval_ms, told_stats, obd_ticked, run_tick,
  install_late, tick, run, init_can_hardware_phase, run_from_boot,
}

abbrev pub is_attempt : Effect → ℕ
is_attempt attempted = 1
is_attempt _ = 0

abbrev pub is_recovery : Effect → ℕ
is_recovery initiated = 1
is_recovery _ = 0

abbrev pub is_give_up : Effect → ℕ
is_give_up (pushed bus_down) = 1
is_give_up _ = 0

abbrev pub is_drop : Effect → ℕ
is_drop (pushed rx_dropped) = 1
is_drop _ = 0

abbrev pub total : (Effect → ℕ) → List Effect → ℕ
total w [] = 0
total w (e ∷ es) = w e + total w es

total-append : (w : Effect → ℕ) (xs ys : List Effect) → total w (xs ++ ys) ≡ total w xs + total w ys
total-append w [] ys = omega arith
total-append w (x ∷ xs) ys = omega (arith, total-append w xs ys)

-- The ticks at which a scan reports the driver as lost.
abbrev pub losses : List Input → ℕ
losses [] = 0
losses (i ∷ is) = (if is_lost i.scan then 1 else 0) + losses is

-- What may still happen: recoveries, the report that they ended, the report of lost frames, attempts.
abbrev recoveries_left : Manager → ℕ
recoveries_left m = 10 - m.recoveries

abbrev give_ups_left : Manager → ℕ
give_ups_left m = 11 - m.recoveries - recoveries_left m

abbrev drops_left : Manager → ℕ
drops_left m = if m.drop_pushed then 0 else 1

abbrev attempts_left : Manager → ℕ
attempts_left m = 6 - m.retry_attempts

-- A step from one state to another spends what it does; `n` losses give six attempts each.
abbrev Spends : ℕ → Manager → Manager × List Effect → Type 0
Spends n m out =
    (total is_recovery out.1 + recoveries_left out.0 ≤ recoveries_left m)
    × (total is_give_up out.1 + give_ups_left out.0 ≤ give_ups_left m)
    × (total is_drop out.1 + drops_left out.0 ≤ drops_left m)
    × (total is_attempt out.1 + attempts_left out.0 ≤ attempts_left m + 6 * n)
    × (out.0.recoveries ≤ 11)

Spends-append :
    (n k : ℕ) (m : Manager) (a b : Manager × List Effect)
    → Spends n m a
    → Spends k a.0 b
    → Spends (n + k) m (b.0, a.1 ++ b.1)
Spends-append n k m a b (p, q, r, s, t) (p', q', r', s', t') = (
  omega (arith, total-append is_recovery a.1 b.1),
  omega (arith, total-append is_give_up a.1 b.1),
  omega (arith, total-append is_drop a.1 b.1),
  omega (arith, total-append is_attempt a.1 b.1),
  t',
)

retry_lem : (i : Input) (m : Manager) → m.recoveries ≤ 11 → Spends 0 m (tick_init_retry i m)
unfolding tick_init_retry
retry_lem i m h = ground arith

received_lem : (i : Input) (m : Manager) → m.recoveries ≤ 11 → Spends 0 m (take_received i m)
unfolding take_received
received_lem i m h = ground arith

drops_lem : (s : Status) (m : Manager) → m.recoveries ≤ 11 → Spends 0 m (report_rx_drops s m)
unfolding report_rx_drops
drops_lem s m h = ground arith

action_lem :
    (i : Input) (s : DriverState) (m : Manager)
    → m.recoveries ≤ 11
    → Spends 0 m (handle_action i (bus_action s m.recoveries) m)
unfolding handle_action bus_action
action_lem i s m h = ground arith

scan_lem :
    (i : Input) (m : Manager)
    → m.recoveries ≤ 11
    → Spends (if is_lost i.scan then 1 else 0) m (tick_bus_scan i m, [])
unfolding tick_bus_scan
scan_lem i m h = ground arith

is_lost-le : (i : Input) → (if is_lost i.scan then 1 else 0) ≤ 1
is_lost-le i = ground arith

supervise_none :
    (i : Input) (m : Manager) → i.status ≡ none → m.recoveries ≤ 11 → Spends 0 m (supervise_bus i m)
unfolding supervise_bus
supervise_none i m e h = ground arith

supervise_some :
    (i : Input) (s : Status) (m : Manager)
    → i.status ≡ some s
    → m.recoveries ≤ 11
    → Spends 0 m (supervise_bus i m)
unfolding supervise_bus
supervise_some i s m e h = rw (e) (
    Spends-append 0 0 m (report_rx_drops s m)
      (handle_action i (bus_action s.state (report_rx_drops s m).0.recoveries)
        (report_rx_drops s m).0)
      (drops_lem s m h) (action_lem i s.state (report_rx_drops s m).0 (drops_lem s m h).4))

supervise_lem : (i : Input) (m : Manager) → m.recoveries ≤ 11 → Spends 0 m (supervise_bus i m)
supervise_lem i m h = elim (Option-cases i.status) [
  | inl e ↦ supervise_none i m e h
  | inr (s, e) ↦ supervise_some i s m e h
]

stays : (m : Manager) → m.recoveries ≤ 11 → Spends 0 m (m, [])
stays m h = (omega arith, omega arith, omega arith, omega arith, h)

ticks_obd : (m : Manager) → m.recoveries ≤ 11 → Spends 0 m (m, obd_ticked ∷ [])
ticks_obd m h = (omega arith, omega arith, omega arith, omega arith, h)

abbrev told : Input → ℕ → Manager → Manager × List Effect
told i rate m = (
  record m { window_frames = 0; last_stat_ms = i.end_ms },
  told_stats rate m.error_count m.rx_lost ∷ [],
)

told_lem : (i : Input) (rate : ℕ) (m : Manager) → m.recoveries ≤ 11 → Spends 0 m (told i rate m)
told_lem i rate m h = (omega arith, omega arith, omega arith, omega arith, h)

Spends-weaken :
    (n : ℕ) (m : Manager) (out : Manager × List Effect) → Spends 0 m out → Spends n m out
Spends-weaken n m out (p, q, r, s, t) = (p, q, r, omega arith, t)

Spends-if :
    (n : ℕ) (m : Manager) (b : Bool) (x y : Manager × List Effect)
    → Spends n m x
    → Spends n m y
    → Spends n m (if b then x else y)
Spends-if n m true x y p q = p
Spends-if n m false x y p q = q

stats_lem : (i : Input) (m : Manager) → m.recoveries ≤ 11 → Spends 0 m (update_stats_window i m)
unfolding update_stats_window
stats_lem i m h =
    let rate : ℕ = u32 (m.window_frames * 10000) / sub32 i.end_ms m.last_stat_ms in
    let rated : Manager = record m { bus_rate_x10 = rate } in
    let supervised : Spends 0 m (supervise_bus i rated) = supervise_lem i rated h in
    Spends-if 0 m (m.last_stat_ms == 0) _ _ (stays m h) (
      Spends-if 0 m (ltb (sub32 i.end_ms m.last_stat_ms) stat_interval_ms) _ _ (stays m h) (
        Spends-append 0 0 m (supervise_bus i rated) (told i rate (supervise_bus i rated).0)
          supervised (told_lem i rate (supervise_bus i rated).0 supervised.4)))

abbrev running_tick : Input → Manager → Manager × List Effect
running_tick i m =
    let (m', taken) = take_received i m in
    let (m'', supervised) = update_stats_window i m' in
    (m'', taken ++ (supervised ++ (obd_ticked ∷ [])))

running_lem : (i : Input) (m : Manager) → m.recoveries ≤ 11 → Spends 0 m (running_tick i m)
running_lem i m h =
    let out : Manager × List Effect = take_received i m in
    let end : Manager × List Effect = update_stats_window i out.0 in
    let taken : Spends 0 m out = received_lem i m h in
    let supervised : Spends 0 out.0 end = stats_lem i out.0 taken.4 in
    Spends-append 0 0 m out (end.0, end.1 ++ (obd_ticked ∷ [])) taken
      (Spends-append 0 0 out.0 end (end.0, obd_ticked ∷ []) supervised
        (ticks_obd end.0 supervised.4))

run_tick_lem :
    (i : Input) (m : Manager)
    → m.recoveries ≤ 11
    → Spends (if is_lost i.scan then 1 else 0) m (run_tick i m)
unfolding run_tick
run_tick_lem i m h =
    let n : ℕ = if is_lost i.scan then 1 else 0 in
    Spends-if n m (m.installed && i.claims_bus) (tick_bus_scan i m, []) _ (scan_lem i m h)
      (Spends-if n m (not m.installed) (tick_init_retry i m) (running_tick i m)
        (Spends-weaken n m (tick_init_retry i m) (retry_lem i m h))
        (Spends-weaken n m (running_tick i m) (running_lem i m h)))

tick_lem :
    (i : Input) (m : Manager)
    → m.recoveries ≤ 11
    → Spends (if is_lost i.scan then 1 else 0) m (tick i m)
unfolding tick install_late
tick_lem i m h = run_tick_lem i (install_late i.installed_since m) h

run_lem : (is : List Input) (m : Manager) → m.recoveries ≤ 11 → Spends (losses is) m (run is m)
unfolding run
run_lem [] m h = stays m h
run_lem (i ∷ is) m h =
    let first : Spends (if is_lost i.scan then 1 else 0) m (tick i m) = tick_lem i m h in
    Spends-append (if is_lost i.scan then 1 else 0) (losses is) m (tick i m) (run is (tick i m).0)
      first (run_lem is (tick i m).0 first.4)

boot_lem : (installs : Bool) → Spends 1 fresh (init_can_hardware_phase installs fresh)
unfolding init_can_hardware_phase
boot_lem true = (omega arith, omega arith, omega arith, omega arith, omega arith)
boot_lem false = (omega arith, omega arith, omega arith, omega arith, omega arith)

boot_attempts :
    (installs : Bool)
    → (total is_attempt (init_can_hardware_phase installs fresh).1 ≡ 1)
      × ((init_can_hardware_phase installs fresh).0.retry_attempts ≡ 0)
unfolding init_can_hardware_phase
boot_attempts true = (refl, refl)
boot_attempts false = (refl, refl)

-- From the boot on, whatever the driver, the clock and the scans of the bus answer: at most ten recoveries from
-- bus-off are initiated, and the report that recovery is given up and the report of lost frames come at most
-- once each; the installation is attempted at least once and, the attempt at boot included, at most seven times,
-- and six more times for each tick at which a scan reported the driver as lost; and the counter of recoveries, a
-- byte, stays at 11 or below.
pub run_bounds :
    (installs : Bool) (is : List Input)
    → let out = run_from_boot installs is in
      (total is_recovery out.1 ≤ 10)
      × (total is_give_up out.1 ≤ 1)
      × (total is_drop out.1 ≤ 1)
      × (1 ≤ total is_attempt out.1)
      × (total is_attempt out.1 ≤ 7 + 6 * losses is)
      × (out.0.recoveries ≤ 11)
unfolding run_from_boot
run_bounds installs is =
    let booted = init_can_hardware_phase installs fresh in
    let (p, q, r, s, t) = boot_lem installs in
    let (p', q', r', s', t') = run_lem is booted.0 t in
    let once = boot_attempts installs in
    (
      omega (arith, total-append is_recovery booted.1 (run is booted.0).1),
      omega (arith, total-append is_give_up booted.1 (run is booted.0).1),
      omega (arith, total-append is_drop booted.1 (run is booted.0).1),
      omega (arith, once, total-append is_attempt booted.1 (run is booted.0).1),
      omega (arith, once, total-append is_attempt booted.1 (run is booted.0).1),
      t',
    )
