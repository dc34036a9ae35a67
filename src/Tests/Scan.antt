-- ===== src/Tests/Scan.antt =====
-- A scan on a controller that always obeys: the frame counts at 500 kbit/s, and the first probe's time is up.
use canshift_firmware.Prelude.{
  ◌+◌, ◌≡◌, ◌≢◌, inl, inr, refl, sym, ◌∙◌, true, false, some, List, [], not, ◌==◌, ◌∷◌, arith,
}
use canshift_firmware.Scan.{
  install, perform, perform_rounds, Bus, Scan, Tick, idle, frame, driver_lost, listen_only, normal,
  tick,
}
use canshift_firmware.Scan.Driver.{IsKept, tick-IsKept}
use canshift_firmware.Scan.Busiest.{IsPick, pick-IsPick}
use canshift_firmware.Scan.Machine.{Probe, pick, detected}
use canshift_firmware.Scan.Machine as Machine
use canshift_firmware.Scan.Speeds as Speeds
use canshift_firmware.Scan.Speeds.{Event}

abbrev controller : Bus
controller = record {
  stop = λ n. true;
  uninstall = λ n. true;
  install = λ n mode kbps. true;
  start = λ n. true;
  receive = λ n. some 880;
  error_count = λ n. 2;
  millis = λ n. 600 + n;
  allocated = λ n. true;
  configured_kbps = 250;
}

abbrev first_probe : Scan Machine.bus_scan
first_probe = record {
  scan = (Machine.begin Machine.default 100).0;
  present = true;
  requested = false;
  running = true;
  driver_up = true;
  driver = some (listen_only, 500);
  started = true;
  calls = 4;
}

turn : (tick controller first_probe).1 ≡ frame
unfolding tick canshift_firmware.Scan.run_scan canshift_firmware.Scan.perform Machine.tick
    canshift_firmware.Scan.receive_one Machine.on_frame Machine.begin
turn = refl

listens_at_250 : (tick controller first_probe).0.driver ≡ some (listen_only, 250)
unfolding tick canshift_firmware.Scan.run_scan canshift_firmware.Scan.perform Machine.tick
    canshift_firmware.Scan.receive_one Machine.on_frame Machine.begin
listens_at_250 = refl

frame_lem : frame ≢ driver_lost
frame_lem e = absurd (ground arith)

turn_kept : (tick controller first_probe).1 ≢ driver_lost
turn_kept e = frame_lem (sym turn ∙ e)

tick-IsKept_example : IsKept controller (tick controller first_probe).0
tick-IsKept_example = tick-IsKept controller first_probe (inl (refl, inr (500, refl))) turn_kept

-- 500 kbit/s had fewer frames, and 1000 kbit/s as many as 250.
abbrev heard : List Probe
heard =
    record { frames = 40; bus_errors = 0; kbps = 500 }
    ∷ record { frames = 300; bus_errors = 3; kbps = 250 }
    ∷ record { frames = 300; bus_errors = 0; kbps = 1000 }
    ∷ []

second_is_busiest : pick heard ≡ detected 1
unfolding pick
second_is_busiest = refl

pick-IsPick_example : IsPick heard (pick heard)
pick-IsPick_example = pick-IsPick heard

-- The installation at 250 kbit/s succeeds, and its start fails: the driver stays installed, is not taken
-- for one that is up, and stands in the way of the normal one.
abbrev stubborn : Bus
stubborn = record controller { start = λ n. not (n == 9) }

start_fails_lost :
    ((tick stubborn first_probe).1 ≡ driver_lost)
    × ((tick stubborn first_probe).0.driver ≡ some (listen_only, 250))
    × ((tick stubborn first_probe).0.driver_up ≡ false)
unfolding tick canshift_firmware.Scan.run_scan canshift_firmware.Scan.perform Machine.tick
    canshift_firmware.Scan.receive_one Machine.on_frame Machine.begin Machine.fail
start_fails_lost = (refl, refl, refl)

-- Four frames at 500 kbit/s; then the four windows pass, and the fourth frame was enough.
abbrev turns : List Event
turns =
    Event.heard 880
    ∷ Event.heard 880
    ∷ Event.heard 880
    ∷ Event.heard 880
    ∷ Event.turn 700 0
    ∷ Event.turn 1300 5
    ∷ Event.turn 1900 5
    ∷ Event.turn 2500 5
    ∷ []

collects_at_500 : (Speeds.run turns (Machine.begin Machine.default 100).0).install_kbps ≡ 500
unfolding Speeds.run Machine.tick Machine.on_frame Machine.begin
collects_at_500 = refl

run-begin-IsProbed_example :
    Speeds.IsProbed (Speeds.run turns (Machine.begin Machine.default 100).0)
run-begin-IsProbed_example = Speeds.run-begin-IsProbed turns Machine.default 100
