-- ===== src/Can/Manager.antt =====
-- src/can/can_manager.cpp: the supervision of the CAN driver, with the choice of rust/can-parser/src/
-- bus_recovery.rs, and the first attempt in src/boot/boot_sequence.cpp. What the clock, the driver and the
-- installation answer in a tick is its `Input`; a scan of the bus (src/can/bus_scan.cpp) is taken by its
-- answers. The counters of logs are left out.
pub mod Bounds
use canshift_firmware.Prelude.{
  ℕ, ◌+◌, ◌-◌, ◌*◌, ◌/◌, Bool, true, false, not, ◌&&◌, ◌||◌, Option, none, some, List, [], ◌∷◌,
  ◌++◌, if◌then◌else◌, ltb, leb, ◌==◌, take, u8, u32, sub32, add32,
}
use canshift_firmware.Scan.{Tick}

abbrev pub init_max_retries : ℕ
init_max_retries = 6

abbrev pub init_retry_ms : ℕ
init_retry_ms = 5000

abbrev pub stat_interval_ms : ℕ
stat_interval_ms = 2000

abbrev pub report_interval_ms : ℕ
report_interval_ms = 1000

abbrev pub max_bus_off_recoveries : ℕ
max_bus_off_recoveries = 10

pub record Message : Type 0 where
  pub id : ℕ
  pub rtr : Bool
  pub extended : Bool
  pub bytes : List ℕ

-- `twai_receive`
pub data Received : Type 0 where
  message : Message → Received
  timeout failed : Received

-- `twai_state_t`
pub data DriverState : Type 0 where
  stopped running bus_off recovering : DriverState

pub record Status : Type 0 where
  pub state : DriverState
  pub missed : ℕ
  pub overrun : ℕ

-- What a tick meets: the time at its start and at its end, whether the task of an attempt that timed out has set
-- the flag since the last tick, and the answers of the calls that it makes.
pub record Input : Type 0 where
  pub start_ms : ℕ
  pub end_ms : ℕ
  pub claims_bus : Bool
  pub scan : Tick
  pub installed_since : Bool
  pub installs : Bool
  pub received : Received
  pub status : Option Status
  pub recovery_starts : Bool
  pub restarts : Bool

-- `BusAction`
pub data BusAction : Type 0 where
  leave recover restart give_up : BusAction

-- The codes that are pushed to the error store.
pub data Report : Type 0 where
  boot_fail perm_down twai_err rx_dropped bus_off rec_fail restart_err bus_down : Report

-- What a tick does outside the module; `delivered` stands for `CanRxRoute::deliver`, `CanMonitor::offer` and
-- `UsbComm::pushCanFrame`, which get the same frame.
pub data Effect : Type 0 where
  attempted initiated restarted obd_ticked : Effect
  delivered : Message → Effect
  pushed : Report → Effect
  told_stats : ℕ → ℕ → ℕ → Effect

-- The statics.
pub record Manager : Type 0 where
  pub installed : Bool
  pub last_retry_ms : ℕ
  pub retry_attempts : ℕ
  pub down_warned : Bool
  pub recoveries : ℕ
  pub error_count : ℕ
  pub last_push_ms : ℕ
  pub window_frames : ℕ
  pub last_stat_ms : ℕ
  pub last_rx_ms : ℕ
  pub bus_rate_x10 : ℕ
  pub rx_lost : ℕ
  pub drop_pushed : Bool

abbrev pub fresh : Manager
fresh = record {
  installed = false;
  last_retry_ms = 0;
  retry_attempts = 0;
  down_warned = false;
  recoveries = 0;
  error_count = 0;
  last_push_ms = 0;
  window_frames = 0;
  last_stat_ms = 0;
  last_rx_ms = 0;
  bus_rate_x10 = 0;
  rx_lost = 0;
  drop_pushed = false;
}

-- `initHardware`
unfoldable pub init_hardware : Bool → Manager → Manager
init_hardware installs m = record m { installed = m.installed || installs }

unfoldable pub tick_init_retry : Input → Manager → Manager × List Effect
unfolding init_hardware
tick_init_retry i m =
    if ltb m.retry_attempts init_max_retries
      && ((m.last_retry_ms == 0) || leb init_retry_ms (sub32 i.start_ms m.last_retry_ms))
    then (
      init_hardware i.installs
          (record m { retry_attempts = m.retry_attempts + 1; last_retry_ms = i.start_ms }),
      attempted ∷ [],
    )
    else if leb init_max_retries m.retry_attempts && not m.down_warned
    then (record m { down_warned = true }, pushed perm_down ∷ [])
    else (m, [])

-- At most eight bytes of a frame are passed on.
unfoldable pub route_frame : ℕ → Message → Manager → Manager × List Effect
route_frame now f m = (
  record m { window_frames = add32 m.window_frames 1; last_rx_ms = now },
  if f.rtr then [] else delivered (record f { bytes = take 8 f.bytes }) ∷ [],
)

unfoldable pub handle_rx_error : ℕ → Manager → Manager × List Effect
handle_rx_error now m =
    let counted : Manager = record m { error_count = add32 m.error_count 1 } in
    if leb report_interval_ms (sub32 now m.last_push_ms)
    then (record counted { last_push_ms = now }, pushed twai_err ∷ [])
    else (counted, [])

unfoldable pub report_rx_drops : Status → Manager → Manager × List Effect
report_rx_drops s m =
    let lost = add32 s.missed s.overrun in
    if leb lost m.rx_lost || m.drop_pushed
    then (record m { rx_lost = lost }, [])
    else (record m { rx_lost = lost; drop_pushed = true }, pushed rx_dropped ∷ [])

-- `bus_action`
unfoldable pub bus_action : DriverState → ℕ → BusAction
bus_action bus_off recoveries =
    if ltb recoveries max_bus_off_recoveries
    then recover
    else if recoveries == max_bus_off_recoveries
    then give_up
    else leave
bus_action stopped recoveries = restart
bus_action running recoveries = leave
bus_action recovering recoveries = leave

-- `kBusActionHandlers`
unfoldable pub handle_action : Input → BusAction → Manager → Manager × List Effect
handle_action i leave m = (m, [])
handle_action i recover m = (
  record m { recoveries = u8 (m.recoveries + 1) },
  pushed Report.bus_off ∷ initiated ∷ (if i.recovery_starts then [] else pushed rec_fail ∷ []),
)
handle_action i restart m = (m, restarted ∷ (if i.restarts then [] else pushed restart_err ∷ []))
handle_action i give_up m = (record m { recoveries = u8 (m.recoveries + 1) }, pushed bus_down ∷ [])

unfoldable pub supervise_bus : Input → Manager → Manager × List Effect
unfolding report_rx_drops bus_action handle_action
supervise_bus i m = elim i.status [
  | none ↦ (m, [])
  | some s ↦
      let (m', drops) = report_rx_drops s m in
      let (m'', handled) = handle_action i (bus_action s.state m'.recoveries) m' in
      (m'', drops ++ handled)
]

unfoldable pub update_stats_window : Input → Manager → Manager × List Effect
unfolding supervise_bus
update_stats_window i m =
    let elapsed = sub32 i.end_ms m.last_stat_ms in
    let rate = u32 (m.window_frames * 10000) / elapsed in
    let (m', effects) = supervise_bus i (record m { bus_rate_x10 = rate }) in
    if m.last_stat_ms == 0
    then (record m { last_stat_ms = i.end_ms }, [])
    else if ltb elapsed stat_interval_ms
    then (m, [])
    else (
      record m' { window_frames = 0; last_stat_ms = i.end_ms },
      effects ++ (told_stats rate m'.error_count m'.rx_lost ∷ []),
    )

unfoldable pub mark_driver_down : Manager → Manager
mark_driver_down m = record m { installed = false; retry_attempts = 0; last_retry_ms = 0 }

abbrev pub is_lost : Tick → Bool
is_lost Tick.driver_lost = true
is_lost _ = false

unfoldable pub tick_bus_scan : Input → Manager → Manager
unfolding mark_driver_down
tick_bus_scan i m = if is_lost i.scan then mark_driver_down m else m

unfoldable pub take_received : Input → Manager → Manager × List Effect
unfolding route_frame handle_rx_error
take_received i m = elim i.received [
  | message f ↦ route_frame i.start_ms f m
  | failed ↦ handle_rx_error i.start_ms m
  | timeout ↦ (m, [])
]

unfoldable pub run_tick : Input → Manager → Manager × List Effect
unfolding tick_bus_scan tick_init_retry take_received update_stats_window
run_tick i m =
    let (m', taken) = take_received i m in
    let (m'', supervised) = update_stats_window i m' in
    if m.installed && i.claims_bus
    then (tick_bus_scan i m, [])
    else if not m.installed
    then tick_init_retry i m
    else (m'', taken ++ (supervised ++ (obd_ticked ∷ [])))

-- What the task of an attempt that timed out does to the flag in the end.
unfoldable pub install_late : Bool → Manager → Manager
install_late since m = record m { installed = m.installed || since }

unfoldable pub tick : Input → Manager → Manager × List Effect
unfolding install_late run_tick
tick i m = run_tick i (install_late i.installed_since m)

-- `sendFrame`: what is transmitted, if anything is.
unfoldable pub send_frame : Bool → ℕ → List ℕ → Bool → Manager → Option Message
send_frame claims_bus id bytes extended m =
    if not m.installed || claims_bus
    then none
    else some (record { id = id; rtr = false; extended = extended; bytes = take 8 bytes })

unfoldable pub run : List Input → Manager → Manager × List Effect
run [] m = (m, [])
run (i ∷ is) m =
    let (m', effects) = tick i m in let (m'', rest) = run is m' in (m'', effects ++ rest)

-- `initCanHardwarePhase` of the boot sequence, which calls `initHardware` before any tick.
unfoldable pub init_can_hardware_phase : Bool → Manager → Manager × List Effect
unfolding init_hardware
init_can_hardware_phase installs m =
    (init_hardware installs m, attempted ∷ (if installs then [] else pushed boot_fail ∷ []))

-- The boot's attempt, then the ticks.
unfoldable pub run_from_boot : Bool → List Input → Manager × List Effect
run_from_boot installs is =
    let (m, booted) = init_can_hardware_phase installs fresh in
    let (m', rest) = run is m in (m', booted ++ rest)
