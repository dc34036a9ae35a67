-- ===== src/Scan/Speeds.antt =====
-- The speeds at which a scan by rust/bus-scan/src/scan.rs listens.
use canshift_firmware.Prelude.{
  ℕ, zero, suc, ◌+◌, ◌≡◌, inl, inr, refl, ap, sym, ◌∙◌, Bool, true, false, some, List, [], ◌∷◌,
  ◌++◌, map, length, if◌then◌else◌, get_elem?, arith, Option-cases, subst,
}
use canshift_firmware.Scan.{Action, stay}
use canshift_firmware.Scan.Busiest.{IsBusiest, IsPick, pick-IsPick}
use canshift_firmware.Scan.Machine.{
  Phase, Probe, BusScan, rates_kbps, change_at, saturating_suc, record_id, enter, finish, queue,
  begin, on_frame, window_ms, kbps_at, after_probes, after_probe, tick, Pick, detected, silent,
  unclear, pick,
}

abbrev speed : Probe → ℕ
speed p = p.kbps

-- The probes stand for the four speeds, and the scan listens at one of them.
pub record IsProbed (b : BusScan) : Type 0 where
  pub speeds : map speed b.probes ≡ rates_kbps
  pub place : ℕ
  pub installed : get_elem? rates_kbps place ≡ some b.install_kbps

change_at_lem :
    (f : Probe → Probe) (keeps : (p : Probe) → (f p).kbps ≡ p.kbps) (n : ℕ) (ps : List Probe)
    → map speed (change_at f n ps) ≡ map speed ps
unfolding change_at
change_at_lem f keeps zero [] = refl
change_at_lem f keeps (suc n) [] = refl
change_at_lem f keeps zero (p ∷ ps) = ap (λ k. k ∷ map speed ps) (keeps p)
change_at_lem f keeps (suc n) (p ∷ ps) = ap (λ l. p.kbps ∷ l) (change_at_lem f keeps n ps)

at_place_lem :
    (before after : List Probe) (p : Probe)
    → get_elem? (map speed (before ++ (p ∷ after))) (length before) ≡ some p.kbps
at_place_lem [] after p = refl
at_place_lem (q ∷ before) after p = at_place_lem before after p

found_lem :
    (before after : List Probe) (p : Probe)
    → kbps_at (length before) (before ++ (p ∷ after)) ≡ p.kbps
unfolding kbps_at
found_lem [] after p = refl
found_lem (q ∷ before) after p = found_lem before after p

busiest_lem :
    (ps : List Probe) (k frames : ℕ)
    → IsBusiest ps k frames
    → get_elem? (map speed ps) k ≡ some (kbps_at k ps)
busiest_lem ps k frames v =
    let whole = v.before ++ (v.probe ∷ v.after) in
    let found : get_elem? (map speed whole) (length v.before)
        ≡ some (kbps_at (length v.before) whole) =
      at_place_lem v.before v.after v.probe ∙ ap some (sym (found_lem v.before v.after v.probe)) in
    subst (λ n. get_elem? (map speed ps) n ≡ some (kbps_at n ps)) v.at_place
      (subst (λ l. get_elem? (map speed l) (length v.before) ≡ some (kbps_at (length v.before) l))
        (sym v.split) found)

same-IsProbed :
    (b b' : BusScan)
    → map speed b'.probes ≡ map speed b.probes
    → b'.install_kbps ≡ b.install_kbps
    → IsProbed b
    → IsProbed b'
same-IsProbed b b' p i v = record {
  speeds = p ∙ v.speeds;
  place = v.place;
  installed = v.installed ∙ ap some (sym i);
}

record_id_lem :
    (id : ℕ) (b : BusScan)
    → ((record_id id b).probes ≡ b.probes) × ((record_id id b).install_kbps ≡ b.install_kbps)
unfolding record_id
record_id_lem id b = ground arith

counted_lem :
    (n : ℕ) (ps : List Probe)
    → map speed (change_at (λ p. record p { frames = saturating_suc p.frames }) n ps) ≡ map speed ps
counted_lem n ps =
    change_at_lem (λ p. record p { frames = saturating_suc p.frames }) (λ p. refl) n ps

on_frame-IsProbed : (id : ℕ) (b : BusScan) → IsProbed b → IsProbed (on_frame b id)
unfolding on_frame
on_frame-IsProbed id b v =
    elim b.phase as (λ ph. IsProbed (on_frame (record b { phase = ph }) id)) [
      | Phase.collecting ↦
          let seen : BusScan = record b { phase = Phase.collecting } in
          let (p, i) = record_id_lem id seen in same-IsProbed b _ (ap (map speed) p) i v
      | Phase.probing ↦ same-IsProbed b _ (counted_lem b.probe_index b.probes) refl v
      | Phase.idle ↦ same-IsProbed b _ refl refl v
      | Phase.done ↦ same-IsProbed b _ refl refl v
    ]

picked-IsProbed :
    (now : ℕ) (b : BusScan) (o : Pick)
    → pick b.probes ≡ o
    → IsPick b.probes o
    → IsProbed b
    → IsProbed (after_probes now b).0
unfolding after_probes enter finish
picked-IsProbed now b (detected index) e (f, u) v =
    rw (e, after_probes)
      (record {
        speeds = v.speeds;
        place = index;
        installed = ap (λ l. get_elem? l index) (sym v.speeds) ∙ busiest_lem b.probes index f u;
      })
picked-IsProbed now b silent e u v = rw (e, after_probes) (same-IsProbed b _ refl refl v)
picked-IsProbed now b unclear e u v = rw (e, after_probes) (same-IsProbed b _ refl refl v)

errors_lem :
    (errors n : ℕ) (ps : List Probe)
    → map speed (change_at (λ p. record p { bus_errors = errors }) n ps) ≡ map speed ps
errors_lem errors n ps = change_at_lem (λ p. record p { bus_errors = errors }) (λ p. refl) n ps

after_probe-IsProbed :
    (now errors : ℕ) (b : BusScan) → IsProbed b → IsProbed (after_probe now errors b).0
unfolding after_probe enter
after_probe-IsProbed now errors b v =
    let probes = change_at (λ p. record p { bus_errors = errors }) b.probe_index b.probes in
    let told : BusScan = record b { probes = probes } in
    let ok = same-IsProbed b told (errors_lem errors b.probe_index b.probes) refl v in
    elim (Option-cases (get_elem? rates_kbps (b.probe_index + 1))) [
      | inl e ↦
          rw (e, after_probe) (picked-IsProbed now told (pick probes) refl (pick-IsPick probes) ok)
      | inr (next, e) ↦
          rw (e, after_probe)
            (record { speeds = ok.speeds; place = b.probe_index + 1; installed = e })
    ]

if-IsProbed :
    (test : Bool) (x y : BusScan × Action)
    → IsProbed x.0
    → IsProbed y.0
    → IsProbed (if test then x else y).0
if-IsProbed true x y v w = v
if-IsProbed false x y v w = w

tick-IsProbed : (now errors : ℕ) (b : BusScan) → IsProbed b → IsProbed (tick b now errors).0
unfolding tick window_ms finish
tick-IsProbed now errors b v =
    elim b.phase as (λ ph. IsProbed (tick (record b { phase = ph }) now errors).0) [
      | Phase.idle ↦ same-IsProbed b _ refl refl v
      | Phase.done ↦ same-IsProbed b _ refl refl v
      | Phase.probing ↦
          let at : BusScan = record b { phase = Phase.probing } in
          let ok = same-IsProbed b at refl refl v in
          if-IsProbed _ (at, stay) _ ok (after_probe-IsProbed now errors at ok)
      | Phase.collecting ↦
          let at : BusScan = record b { phase = Phase.collecting } in
          let ok = same-IsProbed b at refl refl v in
          if-IsProbed _ (at, stay) _ ok (same-IsProbed b _ refl refl v)
    ]

begin-IsProbed : (b : BusScan) (now : ℕ) → IsProbed (begin b now).0
unfolding begin queue enter
begin-IsProbed b now = record { speeds = refl; place = 0; installed = refl }

pub data Event : Type 0 where
  heard : ℕ → Event
  turn : ℕ → ℕ → Event

unfoldable pub run : List Event → BusScan → BusScan
run [] b = b
run (heard id ∷ es) b = run es (on_frame b id)
run (turn now errors ∷ es) b = run es (tick b now errors).0

run-IsProbed : (es : List Event) (b : BusScan) → IsProbed b → IsProbed (run es b)
unfolding run
run-IsProbed [] b v = v
run-IsProbed (heard id ∷ es) b v = run-IsProbed es (on_frame b id) (on_frame-IsProbed id b v)
run-IsProbed (turn now errors ∷ es) b v =
    run-IsProbed es (tick b now errors).0 (tick-IsProbed now errors b v)

-- Over any frames and ticks of a scan that began, its probes stand for the four speeds in turn, and the
-- speed that it asks for is one of the four.
pub run-begin-IsProbed :
    (es : List Event) (b : BusScan) (now : ℕ) → IsProbed (run es (begin b now).0)
run-begin-IsProbed es b now = run-IsProbed es (begin b now).0 (begin-IsProbed b now)
