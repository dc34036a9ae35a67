-- ===== src/Scan.antt =====
-- src/can/bus_scan.cpp: a scan of the bus takes the CAN driver over, listens at several speeds, and gives
-- the driver back, by src/can/can_driver_install.cpp. The steps of the scan (rust/bus-scan) are `Steps`;
-- the controller and the clock answer through `Bus`, each by its place in the row of all calls.
pub mod Driver
pub mod Machine
pub mod Busiest
pub mod Speeds
use canshift_firmware.Prelude.{
  ◌≡◌, ℕ, zero, suc, ◌+◌, Bool, true, false, not, ◌&&◌, ◌||◌, Option, none, some, if◌then◌else◌,
}

-- `CanDriverInstall::BusMode`
pub data Mode : Type 0 where
  normal listen_only : Mode

-- `kBusScanActionNone`, `kBusScanActionInstall`, `kBusScanActionRestore`.
pub data Action : Type 0 where
  stay install restore : Action

pub data Tick : Type 0 where
  idle frame driver_lost : Tick

-- The scan's own state and steps; a scan that failed asks for the normal driver.
pub record Steps : Type 1 where
  pub State : Type 0
  pub queue : State → State
  pub begin : State → ℕ → State × Action
  pub on_frame : State → ℕ → State
  pub tick : State → ℕ → ℕ → State × Action
  pub fail : State → State × Action
  pub abort : State → State
  pub install_kbps : State → ℕ
  pub fail_restores : (s : State) → (fail s).1 ≡ restore

-- Whether `stopIfRunning`, `twai_driver_uninstall`, `twai_driver_install` where nothing is installed,
-- `twai_start` and the allocation succeed; the frame that arrives; the error count, 0 where the status
-- cannot be read.
pub record Bus : Type 0 where
  pub stop : ℕ → Bool
  pub uninstall : ℕ → Bool
  pub install : ℕ → Mode → ℕ → Bool
  pub start : ℕ → Bool
  pub receive : ℕ → Option ℕ
  pub error_count : ℕ → ℕ
  pub millis : ℕ → ℕ
  pub allocated : ℕ → Bool
  pub configured_kbps : ℕ

-- The statics; `driver` is what is installed on the controller, and `started` whether it runs.
pub record Scan (S : Steps) : Type 0 where
  pub scan : S.State
  pub present : Bool
  pub requested : Bool
  pub running : Bool
  pub driver_up : Bool
  pub driver : Option (Mode × ℕ)
  pub started : Bool
  pub calls : ℕ

abbrev pub is_idle : Tick → Bool
is_idle idle = true
is_idle _ = false

module _ {S : Steps} (bus : Bus) where
  -- `stopOnThisCore`
  unfoldable pub stop_on_this_core : Scan S → Scan S × Bool
  stop_on_this_core b =
      let stopped : Scan S = record b { started = false; calls = b.calls + 2 } in
      if bus.stop b.calls
      then if bus.uninstall (b.calls + 1)
        then (record stopped { driver = none }, true)
        else (stopped, false)
      else (record b { calls = b.calls + 1 }, false)

  -- `installDriver`: a second installation is refused.
  unfoldable pub install_driver : Mode → ℕ → Scan S → Scan S × Bool
  install_driver mode kbps b =
      let failed : Scan S = record b { calls = b.calls + 1 } in
      elim b.driver [
        | some there ↦ (failed, false)
        | none ↦
            if bus.install b.calls mode kbps
            then (record failed { driver = some (mode, kbps); started = false }, true)
            else (failed, false)
      ]

  -- `startDriver`: a driver that does not start stays installed.
  unfoldable pub start_on_this_core : Mode → ℕ → Scan S → Scan S × Bool
  unfolding install_driver
  start_on_this_core mode kbps b =
      let (b', installed) = install_driver mode kbps b in
      if installed
      then if bus.start b'.calls
        then (record b' { started = true; calls = b'.calls + 1 }, true)
        else (record b' { calls = b'.calls + 1 }, false)
      else (b', false)

  unfoldable pub fail_scan : Scan S → Scan S × Action
  fail_scan b = let (scan, action) = S.fail b.scan in (record b { scan = scan }, action)

  unfoldable pub release_driver : Scan S → Scan S × Bool
  unfolding stop_on_this_core
  release_driver b =
      let (b', stopped) = stop_on_this_core b in
      if b.driver_up then (record b' { driver_up = not stopped }, stopped) else (b, true)

  unfoldable pub install_listen_only : Scan S → Scan S × Bool
  unfolding release_driver start_on_this_core
  install_listen_only b =
      let (b', released) = release_driver b in
      let (b'', started) = start_on_this_core listen_only (S.install_kbps b'.scan) b' in
      if released then (record b'' { driver_up = started }, started) else (b', false)

  unfoldable pub restore_driver : Scan S → Scan S × Tick
  unfolding release_driver start_on_this_core
  restore_driver b =
      let (b', released) = release_driver (record b { running = false }) in
      let (b'', started) = start_on_this_core normal bus.configured_kbps b' in
      if released then (b'', if started then idle else driver_lost) else (b', driver_lost)

  -- `perform` and `installOrFail`, which call one another, for this many calls.
  unfoldable pub perform_rounds : ℕ → Action → Scan S → Scan S × Tick
  unfolding install_listen_only fail_scan restore_driver
  perform_rounds zero action b = (b, idle)
  perform_rounds (suc rounds) stay b = (b, idle)
  perform_rounds (suc rounds) restore b = restore_driver b
  perform_rounds (suc rounds) install b =
      let (b', installed) = install_listen_only b in
      let (b'', action) = fail_scan b' in
      let rest = perform_rounds rounds action b'' in if installed then (b', idle) else rest

  -- A failed scan asks for a restore, so that two rounds are enough.
  unfoldable pub perform : Action → Scan S → Scan S × Tick
  unfolding perform_rounds
  perform action b = perform_rounds 2 action b

  unfoldable pub begin_scan : Scan S → Scan S × Tick
  begin_scan b =
      let (b', stopped) = stop_on_this_core (record b { requested = false }) in
      let (scan, action) = S.begin b'.scan (bus.millis b'.calls) in
      if stopped
      then perform action
          (record b' { driver_up = false; running = true; scan = scan; calls = b'.calls + 1 })
      else (record b' { scan = S.abort b'.scan }, idle)

  -- `receiveOne`
  unfoldable pub receive_one : Scan S → Scan S × Bool
  receive_one b = elim (bus.receive b.calls) [
    | none ↦ (record b { calls = b.calls + 1 }, false)
    | some id ↦ (record b { scan = S.on_frame b.scan id; calls = b.calls + 1 }, true)
  ]

  unfoldable pub run_scan : Scan S → Scan S × Tick
  run_scan b =
      let (b', received) = receive_one b in
      let (scan, action) = S.tick b'.scan (bus.millis b'.calls) (bus.error_count b'.calls) in
      let (b'', outcome) = perform action (record b' { scan = scan; calls = b'.calls + 1 }) in
      (b'', if not (is_idle outcome) || not received then outcome else frame)

  unfoldable pub claims_bus : Scan S → Bool
  claims_bus b = b.requested || b.running

  unfoldable pub request_start : Scan S → Scan S × Bool
  unfolding claims_bus
  request_start b =
      let present = b.present || bus.allocated b.calls in
      let ready = record b { present = present; calls = b.calls + 1 } in
      if claims_bus b
      then (b, false)
      else if present
      then (record ready { scan = S.queue b.scan; requested = true }, true)
      else (ready, false)

  unfoldable pub tick : Scan S → Scan S × Tick
  tick b = if b.running then run_scan b else begin_scan b
