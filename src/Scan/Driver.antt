-- ===== src/Scan/Driver.antt =====
-- Which driver src/can/bus_scan.cpp leaves on the controller.
use canshift_firmware.Prelude.{
  ℕ, suc, ℕ, ◌+◌, ◌≡◌, ◌≢◌, ◌⊎◌, inl, inr, refl, ap, sym, subst, ◌∙◌, Bool, true, false, not, ◌||◌,
  none, some, if◌then◌else◌, arith, Bool-cases, Option-cases,
}
use canshift_firmware.Scan.{
  Mode, install_driver, start_on_this_core, normal, listen_only, Action, stay, install, restore,
  Tick, idle, frame, driver_lost, Steps, Bus, Scan, is_idle, stop_on_this_core, fail_scan,
  release_driver, install_listen_only, restore_driver, perform_rounds, perform, begin_scan,
  receive_one, run_scan, tick,
}

reported :
    (t : Tick) (received : Bool)
    → (if not (is_idle t) || not received then t else frame) ≢ driver_lost
    → t ≢ driver_lost
reported idle received kept = λ e. absurd (ground arith)
reported frame received kept = λ e. absurd (ground arith)
reported driver_lost received kept = kept

module _ {S : Steps} (bus : Bus) where
  -- Nothing is installed, or a driver that only listens.
  abbrev pub IsQuiet : Scan S → Type 0
  IsQuiet b = (b.driver ≡ none) ⊎ ((kbps : ℕ) × (b.driver ≡ some (listen_only, kbps)))

  abbrev pub IsListening : Scan S → Type 0
  IsListening b = (b.running ≡ true) × IsQuiet b

  -- The normal driver is installed at the configured speed.
  pub record IsNormal (b : Scan S) : Type 0 where
    pub running : b.running ≡ false
    pub driver : b.driver ≡ some (normal, bus.configured_kbps)

  abbrev pub IsKept : Scan S → Type 0
  IsKept b = IsListening b ⊎ IsNormal b

  -- What a step leaves that did not report the driver as lost.
  abbrev Keeps : Scan S × Tick → Type 0
  Keeps out = out.1 ≢ driver_lost → IsKept out.0

  stop_lem :
      (b : Scan S)
      → ((stop_on_this_core bus b).0.running ≡ b.running)
        × ((stop_on_this_core bus b).0.scan ≡ b.scan)
        × (((stop_on_this_core bus b).1 ≡ true) × ((stop_on_this_core bus b).0.driver ≡ none)
            ⊎ ((stop_on_this_core bus b).1 ≡ false)
              × ((stop_on_this_core bus b).0.driver ≡ b.driver))
  unfolding stop_on_this_core
  stop_lem b = ground arith

  start_lem :
      (mode : Mode) (kbps : ℕ) (b : Scan S)
      → ((start_on_this_core bus mode kbps b).0.running ≡ b.running)
        × (((start_on_this_core bus mode kbps b).0.driver ≡ some (mode, kbps))
            ⊎ ((start_on_this_core bus mode kbps b).1 ≡ false)
              × ((start_on_this_core bus mode kbps b).0.driver ≡ b.driver))
  unfolding start_on_this_core install_driver
  start_lem mode kbps b = ground arith

  kept-IsQuiet :
      (b b' : Scan S) → (b'.driver ≡ none) ⊎ (b'.driver ≡ b.driver) → IsQuiet b → IsQuiet b'
  kept-IsQuiet b b' (inl e) v = inl e
  kept-IsQuiet b b' (inr e) (inl n) = inl (e ∙ n)
  kept-IsQuiet b b' (inr e) (inr (kbps, n)) = inr (kbps, e ∙ n)

  release_lem :
      (b : Scan S)
      → ((release_driver bus b).0.running ≡ b.running)
        × (((release_driver bus b).0.driver ≡ none) ⊎ ((release_driver bus b).0.driver ≡ b.driver))
  unfolding release_driver stop_on_this_core
  release_lem b = ground arith

  install_lem : (b : Scan S) → IsListening b → IsListening (install_listen_only bus b).0
  unfolding install_listen_only
  install_lem b (r, v) =
      let out = release_driver bus b in
      let (r', k) = release_lem b in
      let quiet = kept-IsQuiet b out.0 k v in
      let begun = start_on_this_core bus listen_only (S.install_kbps out.0.scan) out.0 in
      let (r'', s) = start_lem listen_only (S.install_kbps out.0.scan) out.0 in
      elim (Bool-cases out.1) [
        | inr e ↦ rw (e, install_listen_only) (r' ∙ r, quiet)
        | inl e ↦
            rw (e, install_listen_only)
              (
                r'' ∙ r' ∙ r,
                elim s [
                  | inl d ↦ inr (S.install_kbps out.0.scan, d)
                  | inr (f, d) ↦ kept-IsQuiet out.0 begun.0 (inr d) quiet
                ],
              )
      ]

  restore_lem :
      (b : Scan S) → (restore_driver bus b).1 ≢ driver_lost → IsNormal (restore_driver bus b).0
  unfolding restore_driver
  restore_lem b kept =
      let off : Scan S = record b { running = false } in
      let out = release_driver bus off in
      let (r, s) = start_lem normal bus.configured_kbps out.0 in
      let begun = start_on_this_core bus normal bus.configured_kbps out.0 in
      elim (Bool-cases out.1) [
        | inr e ↦ absurd (kept (rw (e, restore_driver) refl))
        | inl e ↦ elim (Bool-cases begun.1) [
          | inr f ↦ absurd (kept (rw (e, f, restore_driver) refl))
          | inl f ↦
              rw (e, restore_driver)
                (record {
                  running = r ∙ (release_lem off).0;
                  driver = elim s [ inl d ↦ d | inr (g, d) ↦ absurd (ground arith) ];
                })
        ]
      ]

  receive-IsListening : (b : Scan S) → IsListening b → IsListening (receive_one bus b).0
  unfolding receive_one
  receive-IsListening b v = elim (Option-cases (bus.receive b.calls)) [
    | inl e ↦ rw (e, receive_one) v
    | inr (id, e) ↦ rw (e, receive_one) v
  ]

  fail_lem : (b : Scan S) → (fail_scan bus b).1 ≡ restore
  unfolding fail_scan
  fail_lem b = S.fail_restores b.scan

  perform_failed :
      (b : Scan S)
      → (install_listen_only bus b).1 ≡ false
      → perform bus install b ≡ restore_driver bus (fail_scan bus (install_listen_only bus b).0).0
  unfolding perform
  perform_failed b e = rw (e, fail_lem (install_listen_only bus b).0, perform, perform_rounds) refl

  -- A failed installation is followed by at most one more round: with any number of rounds from two on,
  -- `perform` and `installOrFail` do the same.
  perform-enough_rounds :
      (rounds : ℕ) (action : Action) (b : Scan S)
      → perform_rounds bus (suc (suc rounds)) action b ≡ perform bus action b
  unfolding perform
  perform-enough_rounds rounds stay b = refl
  perform-enough_rounds rounds restore b = refl
  perform-enough_rounds rounds install b =
      rw (fail_lem (install_listen_only bus b).0, perform, perform_rounds) refl

  perform-Keeps : (action : Action) (b : Scan S) → IsListening b → Keeps (perform bus action b)
  unfolding perform
  perform-Keeps stay b v = λ kept. inl v
  perform-Keeps restore b v = λ kept. inr (restore_lem b kept)
  perform-Keeps install b v =
      let out = install_listen_only bus b in
      elim (Bool-cases out.1) [
        | inl e ↦ λ kept. rw (e, perform, perform_rounds) (inl (install_lem b v))
        | inr e ↦
            subst Keeps (sym (perform_failed b e))
              (λ kept. inr (restore_lem (fail_scan bus out.0).0 kept))
      ]

  begin-Keeps : (b : Scan S) → IsNormal b → Keeps (begin_scan bus b)
  unfolding begin_scan
  begin-Keeps b v =
      let asked : Scan S = record b { requested = false } in
      let out = stop_on_this_core bus asked in
      let (scan, action) = S.begin out.0.scan (bus.millis out.0.calls) in
      let begun : Scan S = record out.0 {
        driver_up = false;
        running = true;
        scan = scan;
        calls = out.0.calls + 1;
      } in
      let (r, n, s) = stop_lem asked in
      elim s [
        | inl (e, d) ↦ rw (e, begin_scan) (perform-Keeps action begun (refl, inl d))
        | inr (e, d) ↦
            rw (e, begin_scan)
              (λ kept. inr (record { running = r ∙ v.running; driver = d ∙ v.driver }))
      ]

  run-Keeps : (b : Scan S) → IsListening b → Keeps (run_scan bus b)
  unfolding run_scan
  run-Keeps b v =
      let got = receive_one bus b in
      let (scan, action) =
        S.tick got.0.scan (bus.millis got.0.calls) (bus.error_count got.0.calls) in
      let ready : Scan S = record got.0 { scan = scan; calls = got.0.calls + 1 } in
      let out = perform bus action ready in
      λ kept. perform-Keeps action ready (receive-IsListening b v) (reported out.1 got.1 kept)

  -- From a running scan with no driver but a listening one, or from the normal driver at the configured
  -- speed, a tick that does not report the driver as lost leaves one of the two again; so the normal driver
  -- is installed again whenever the scan no longer runs.
  pub tick-IsKept : (b : Scan S) → IsKept b → (tick bus b).1 ≢ driver_lost → IsKept (tick bus b).0
  unfolding tick
  tick-IsKept b (inl v) =
      subst Keeps (sym (ap (λ r. if r then run_scan bus b else begin_scan bus b) v.0))
        (run-Keeps b v)
  tick-IsKept b (inr v) =
      subst Keeps (sym (ap (λ r. if r then run_scan bus b else begin_scan bus b) v.running))
        (begin-Keeps b v)
