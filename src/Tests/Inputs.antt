-- ===== src/Tests/Inputs.antt =====
-- A button on pin 4 with a debounce time of 5 ms.
use canshift_firmware.Prelude.{ℕ, ◌≡◌, refl, true, false, some, List, [], ◌∷◌, map, All}
use canshift_firmware.Inputs.{
  Binding, Active, short_press, long_press, double_press, BindingState, released_state, scan_each,
}
use canshift_firmware.Inputs.Gestures.{Press, scan_presses, scan_presses_lem}
use canshift_firmware.Inputs.Debounce.{Scan, scan_all, scan_all_settled, scan_all-settled}
use canshift_firmware.Inputs.Actions.{passed, IsAcknowledge, scan_each_lem}

-- Two quick taps, a long press, and a single tap.
abbrev presses : List Press
presses =
    record { start = 1000; held = 1010 ∷ []; release = 1100; after = 1200 ∷ [] }
    ∷ record { start = 1220; held = []; release = 1300; after = 1400 ∷ 1700 ∷ [] }
    ∷ record { start = 2000; held = 2500 ∷ 2600 ∷ 2700 ∷ []; release = 2800; after = [] }
    ∷ record { start = 3000; held = []; release = 3100; after = 3200 ∷ 3351 ∷ [] }
    ∷ []

scan_presses_lem_example :
    scan_presses presses released_state ≡ double_press ∷ long_press ∷ short_press ∷ []
scan_presses_lem_example =
    scan_presses_lem presses 0 false released_state
      (record { up = refl; last = refl; waits = refl })

abbrev first_tap : Press
first_tap = record { start = 1000; held = []; release = 1100; after = 1200 ∷ [] }

abbrev second_tap : Press
second_tap = record { start = 1300; held = []; release = 1400; after = 1700 ∷ [] }

-- A contact that bounces for 3 ms.
abbrev scans : List Scan
scans =
    (true, 100)
    ∷ (false, 101)
    ∷ (true, 103)
    ∷ (true, 107)
    ∷ (true, 108)
    ∷ (false, 200)
    ∷ (false, 205)
    ∷ (false, 456)
    ∷ []

scan_all-settled_example :
    scan_all 5 scans released_state
    ≡ scan_all_settled ((true, 108) ∷ (false, 205) ∷ (false, 456) ∷ []) released_state
scan_all-settled_example = scan_all-settled 5 scans released_state

abbrev button : Binding ℕ
button = record {
  pin = some 4;
  active = Active.active_low;
  debounce_ms = 0;
  kind = long_press;
  action = 1;
  signal = [];
}

abbrev held : List (Binding ℕ × BindingState)
held =
    (
      button,
      record released_state { raw_prev = true; debounced_pressed = true; press_start_ms = 1000 },
    )
    ∷ []

scan_each_lem_example :
    ((scan_each (λ name. 64) (λ id. false) false (λ pin. false) 1700 held).0
      ≡ map (passed (λ pin. false) 1700) held)
    × All IsAcknowledge (scan_each (λ name. 64) (λ id. false) true (λ pin. false) 1700 held).1
scan_each_lem_example = scan_each_lem (λ name. 64) (λ id. false) false (λ pin. false) 1700 held
