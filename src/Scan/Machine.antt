-- ===== src/Scan/Machine.antt =====
-- rust/bus-scan/src: the steps of a scan (scan.rs), the choice of a speed (picker.rs) and the table of the
-- identifiers seen (seen_ids.rs), which holds its used slots.
use canshift_firmware.Prelude.{
  ◌≡◌, refl, ℕ, zero, suc, ◌+◌, ◌/◌, ◌^◌, Bool, true, false, ◌&&◌, Option, none, some, List, [],
  ◌∷◌, ◌++◌, map, if◌then◌else◌, ltb, leb, ◌==◌, length, get_elem?, sub32,
}
use canshift_firmware.Scan.{Action, stay, install, restore, Steps}

pub data Phase : Type 0 where
  idle probing collecting done : Phase

pub data Outcome : Type 0 where
  none_yet detected silent unclear failed : Outcome

pub record Probe : Type 0 where
  pub frames : ℕ
  pub bus_errors : ℕ
  pub kbps : ℕ

pub record SeenId : Type 0 where
  pub id : ℕ
  pub count : ℕ

pub record BusScan : Type 0 where
  pub probes : List Probe
  pub ids : List SeenId
  pub phase_started_ms : ℕ
  pub install_kbps : ℕ
  pub phase : Phase
  pub probe_index : ℕ
  pub outcome : Outcome
  pub truncated : Bool

abbrev pub rates_kbps : List ℕ
rates_kbps = 500 ∷ 250 ∷ 1000 ∷ 125 ∷ []

abbrev probe_ms : ℕ
probe_ms = 500

abbrev collect_ms : ℕ
collect_ms = 3000

abbrev min_frames : ℕ
min_frames = 4

abbrev error_ratio : ℕ
error_ratio = 10

abbrev id_capacity : ℕ
id_capacity = 128

-- `saturating_add` of one.
unfoldable pub saturating_suc : ℕ → ℕ
saturating_suc n = if ltb (n + 1) (2 ^ 32) then n + 1 else n

unfoldable pub clean : Probe → Bool
clean p = leb min_frames p.frames && leb p.bus_errors (p.frames / error_ratio)

unfoldable pub quiet : Probe → Bool
quiet p = p.frames == 0 && p.bus_errors == 0

unfoldable pub all_quiet : List Probe → Bool
all_quiet [] = true
all_quiet (p ∷ ps) = quiet p && all_quiet ps

-- The busiest clean probe from a place on, the earlier one of two.
unfoldable pub best : List Probe → ℕ → Option (ℕ × ℕ) → Option (ℕ × ℕ)
unfolding clean
best [] index b = b
best (p ∷ ps) index none =
    let taken = best ps (index + 1) (some (index, p.frames)) in
    let left = best ps (index + 1) none in if clean p then taken else left
best (p ∷ ps) index (some b) =
    let taken = best ps (index + 1) (some (index, p.frames)) in
    let left = best ps (index + 1) (some b) in if clean p && ltb b.1 p.frames then taken else left

pub data Pick : Type 0 where
  detected : ℕ → Pick
  silent unclear : Pick

unfoldable pub pick : List Probe → Pick
unfolding best all_quiet
pick ps = elim (best ps 0 none) [
  | some b ↦ detected b.0
  | none ↦ if all_quiet ps then silent else unclear
]

abbrev empty_probe : ℕ → Probe
empty_probe kbps = record { frames = 0; bus_errors = 0; kbps = kbps }

abbrev pub default : BusScan
default = record {
  probes = map (λ r. empty_probe 0) rates_kbps;
  ids = [];
  phase_started_ms = 0;
  install_kbps = 0;
  phase = idle;
  probe_index = 0;
  outcome = none_yet;
  truncated = false;
}

-- `get_mut` and a change of what is there.
unfoldable pub change_at : {A : Type 0} → (A → A) → ℕ → List A → List A
change_at f zero (x ∷ xs) = f x ∷ xs
change_at f (suc n) (x ∷ xs) = x ∷ change_at f n xs
change_at f n [] = []

-- `find` by the identifier, and the count of what it finds.
unfoldable pub count_id : ℕ → List SeenId → Option (List SeenId)
unfolding saturating_suc
count_id id [] = none
count_id id (s ∷ ss) =
    let rest = count_id id ss in
    if s.id == id
    then some (record s { count = saturating_suc s.count } ∷ ss)
    else elim rest [ none ↦ none | some ss' ↦ some (s ∷ ss') ]

unfoldable pub record_id : ℕ → BusScan → BusScan
unfolding count_id
record_id id b = elim (count_id id b.ids) [
  | some ids ↦ record b { ids = ids }
  | none ↦
      if ltb (length b.ids) id_capacity
      then record b { ids = b.ids ++ (record { id = id; count = 1 } ∷ []) }
      else record b { truncated = true }
]

unfoldable pub enter : Phase → ℕ → ℕ → BusScan → BusScan × Action
enter phase kbps now b =
    (record b { phase = phase; install_kbps = kbps; phase_started_ms = now }, install)

unfoldable pub finish : Outcome → BusScan → BusScan × Action
finish outcome b = (record b { phase = done; outcome = outcome }, restore)

-- `queue` resets the whole scan.
unfoldable pub queue : BusScan → BusScan
queue b = record default {
  probes = map empty_probe rates_kbps;
  phase = probing;
  install_kbps = 500;
}

unfoldable pub begin : BusScan → ℕ → BusScan × Action
unfolding queue enter
begin b now = enter probing 500 now (queue b)

unfoldable pub on_frame : BusScan → ℕ → BusScan
unfolding record_id change_at saturating_suc
on_frame b id = elim b.phase [
  | collecting ↦ record_id id b
  | probing ↦ record b {
    probes = change_at (λ p. record p { frames = saturating_suc p.frames }) b.probe_index b.probes;
  }
  | idle ↦ b
  | done ↦ b
]

unfoldable pub window_ms : Phase → Option ℕ
window_ms probing = some probe_ms
window_ms collecting = some collect_ms
window_ms idle = none
window_ms done = none

-- The speed of the probe that was picked; 0 stands for the panic of an index past the end.
unfoldable pub kbps_at : ℕ → List Probe → ℕ
kbps_at index ps = elim (get_elem? ps index) [ none ↦ 0 | some p ↦ p.kbps ]

unfoldable pub after_probes : ℕ → BusScan → BusScan × Action
unfolding pick enter finish kbps_at
after_probes now b = elim (pick b.probes) [
  | detected index ↦ enter collecting (kbps_at index b.probes) now (record b { outcome = detected })
  | silent ↦ finish silent b
  | unclear ↦ finish unclear b
]

unfoldable pub after_probe : ℕ → ℕ → BusScan → BusScan × Action
unfolding change_at after_probes enter
after_probe now errors b =
    let told = record b {
      probes = change_at (λ p. record p { bus_errors = errors }) b.probe_index b.probes;
    } in
    elim (get_elem? rates_kbps (b.probe_index + 1)) [
      | none ↦ after_probes now told
      | some next ↦ enter probing next now (record told { probe_index = b.probe_index + 1 })
    ]

unfoldable pub tick : BusScan → ℕ → ℕ → BusScan × Action
unfolding window_ms after_probe finish
tick b now errors = elim (window_ms b.phase) [
  | none ↦ (b, stay)
  | some window ↦
      if ltb (sub32 now b.phase_started_ms) window
      then (b, stay)
      else elim b.phase [ probing ↦ after_probe now errors b | _ ↦ finish detected b ]
]

unfoldable pub fail : BusScan → BusScan × Action
unfolding finish
fail b = finish failed b

unfoldable pub abort : BusScan → BusScan
abort b = record default { phase = done; outcome = failed }

pub fail_restores : (b : BusScan) → (fail b).1 ≡ restore
unfolding fail
fail_restores b = refl

abbrev pub bus_scan : Steps
bus_scan = record {
  State = BusScan;
  queue = queue;
  begin = begin;
  on_frame = on_frame;
  tick = tick;
  fail = fail;
  abort = abort;
  install_kbps = λ b. b.install_kbps;
  fail_restores = fail_restores;
}
