-- ===== src/Ota/Receiver/Handles.antt =====
-- Every update handle that `esp_ota_begin` gives is given back, by `esp_ota_end` or
-- `esp_ota_abort`, before the receiver leaves the receiving state or opens another.
use canshift_firmware.Prelude.{
  ℕ, ◌+◌, ◌≡◌, ◌≢◌, inl, inr, refl, ap, ◌∙◌, Bool, true, Option, none, some, List, [], ◌∷◌,
  if◌then◌else◌, ltb, ◌==◌, ◌!=◌, length, add32, arith, Bool-cases, Option-cases, All,
}
use canshift_firmware.Ota.Crypto.{Crypto}
use canshift_firmware.Ota.Flash.{Partition, opens, closes}
use canshift_firmware.Ota.Receiver.{
  Error, Receiver, BeginAnswers, CommitAnswers, is_receiving, teardown_ota_handle, write_chunk,
  write_probed, capture_header_probe, begin, begin_fresh, open_session, refusal_for,
  start_signature, start_session, arm, commit, activate_image, fail_commit, fail_begin,
  no_ota_partition, ota_begin_failed, abort, image_rejection,
}

-- What the host can make the receiver do, with the answers of the platform.
pub data Op : Type 0 where
  begins : ℕ → List ℕ → Option (List ℕ) → BeginAnswers → Op
  writes : ℕ → List ℕ → Bool → Op
  commits : CommitAnswers → Op
  aborts : Op

-- `esp_ota_begin` never gives the handle 0.
abbrev pub GivesHandles : Op → Type 0
GivesHandles (begins total sha sig answers) = answers.handle ≢ some 0
GivesHandles _ = Unit {0}

module _ {c : Crypto} where
  unfoldable pub step : Bool → Op → Receiver c → Receiver c
  step allow_unsigned (begins total sha sig answers) r =
      (begin allow_unsigned total sha sig answers r).0
  step allow_unsigned (writes offset bytes write_ok) r = (write_chunk offset bytes write_ok r).0
  step allow_unsigned (commits answers) r = (commit allow_unsigned answers r).0
  step allow_unsigned aborts r = abort r

  unfoldable pub run : Bool → List Op → Receiver c → Receiver c
  run allow_unsigned [] r = r
  run allow_unsigned (op ∷ ops) r = run allow_unsigned ops (step allow_unsigned op r)

  -- The handle is nonzero exactly while receiving, and is then the one that is out.
  pub record Balanced (r : Receiver c) : Type 0 where
    pub held : (r.handle != 0) ≡ is_receiving r.state
    pub count : opens r.log ≡ closes r.log + (if r.handle != 0 then 1 else 0)

  -- The count alone, which holds in the middle of an operation too.
  abbrev Counts : Receiver c → Type 0
  Counts r = opens r.log ≡ closes r.log + (if r.handle != 0 then 1 else 0)

  teardown-Counts :
      (r : Receiver c)
      → Counts r
      → Counts (teardown_ota_handle r) × ((teardown_ota_handle r).handle ≡ 0)
  unfolding teardown_ota_handle opens closes
  teardown-Counts r v = ground arith

  abort-Balanced : (r : Receiver c) → Balanced r → Balanced (abort r)
  unfolding abort opens closes
  abort-Balanced r v = ground arith

  -- What an operation leaves that ends the session: a state other than receiving, no handle.
  write_probed-Balanced :
      (bytes : List ℕ) (write_ok : Bool) (r : Receiver c)
      → is_receiving r.state ≡ true
      → Balanced r
      → Balanced (write_probed bytes write_ok r).0
  unfolding write_probed opens closes
  write_probed-Balanced bytes write_ok r on v = ground arith

  capture-Balanced :
      (bytes : List ℕ) (r : Receiver c)
      → Balanced r
      → Balanced (capture_header_probe bytes r)
        × (is_receiving (capture_header_probe bytes r).state ≡ is_receiving r.state)
  unfolding capture_header_probe
  capture-Balanced bytes r v = ground arith

  write_chunk-Balanced :
      (offset : ℕ) (bytes : List ℕ) (write_ok : Bool) (r : Receiver c)
      → Balanced r
      → Balanced (write_chunk offset bytes write_ok r).0
  unfolding write_chunk
  write_chunk-Balanced offset bytes write_ok r v = elim (Bool-cases (is_receiving r.state)) [
    | inr off ↦ rw off v
    | inl on ↦ rw on (elim (Bool-cases (length bytes == 0)) [
      | inl e1 ↦ rw e1 v
      | inr e1 ↦ rw e1 (elim (Bool-cases (offset == r.written_size)) [
        | inr e2 ↦ rw e2 v
        | inl e2 ↦
            rw e2 (elim (Bool-cases (ltb r.expected_size (add32 r.written_size (length bytes)))) [
              | inl e3 ↦ rw e3 v
              | inr e3 ↦ rw e3 (
                  let kept = capture-Balanced bytes r v in
                  write_probed-Balanced bytes write_ok (capture_header_probe bytes r) (kept.1 ∙ on)
                    kept.0)
            ])
      ])
    ])
  ]

  activate_image-Balanced :
      (answers : CommitAnswers) (r : Receiver c)
      → is_receiving r.state ≡ true
      → Balanced r
      → Balanced (activate_image answers r).0
  unfolding activate_image opens closes
  activate_image-Balanced answers r on v = ground arith

  fail_commit-Balanced :
      (reason : Error) (r : Receiver c) → Balanced r → Balanced (fail_commit reason r).0
  unfolding fail_commit opens closes
  fail_commit-Balanced reason r v = ground arith

  commit-Balanced :
      (allow_unsigned : Bool) (answers : CommitAnswers) (r : Receiver c)
      → Balanced r
      → Balanced (commit allow_unsigned answers r).0
  unfolding commit
  commit-Balanced allow answers r v = elim (Bool-cases (is_receiving r.state)) [
    | inr off ↦ rw (off, commit) v
    | inl on ↦ elim (Option-cases (image_rejection allow r)) [
      | inl fine ↦ rw (on, commit) (rw (fine, commit) (activate_image-Balanced answers r on v))
      | inr (reason, bad) ↦ rw (on, commit) (rw (bad, commit) (fail_commit-Balanced reason r v))
    ]
  ]

  start_signature-keeps :
      (allow_unsigned : Bool) (sig : Option (List ℕ)) (r : Receiver c)
      → let r' = (start_signature allow_unsigned sig r).0 in
        (r'.handle ≡ r.handle) × (r'.log ≡ r.log) × (r'.state ≡ r.state)
  unfolding start_signature
  start_signature-keeps allow none r = (refl, refl, refl)
  start_signature-keeps allow (some s) r = ground arith

  refusal_for-keeps :
      (allow_unsigned : Bool) (p : Option Partition) (total : ℕ) (sig : Option (List ℕ))
      (r : Receiver c)
      → let r' = (refusal_for allow_unsigned p total sig r).0 in
        (r'.handle ≡ r.handle) × (r'.log ≡ r.log) × (r'.state ≡ r.state)
  unfolding refusal_for
  refusal_for-keeps allow none total sig r = (refl, refl, refl)
  refusal_for-keeps allow (some p) total sig r = ground (arith, start_signature-keeps allow sig r)

  arm-Balanced :
      (p : Partition) (h total : ℕ) (sha : List ℕ) (r : Receiver c)
      → h ≢ 0
      → opens r.log ≡ closes r.log
      → Balanced (arm (start_session p h total sha r)).0
  unfolding arm start_session opens closes
  arm-Balanced p h total sha r out free = ground arith

  fail_begin-Balanced :
      (reason : Error) (r : Receiver c)
      → r.handle ≡ 0
      → opens r.log ≡ closes r.log
      → Balanced (fail_begin reason r).0
  unfolding fail_begin
  fail_begin-Balanced reason r h free = ground arith

  open_session-Balanced :
      (p : Option Partition) (h : Option ℕ) (total : ℕ) (sha : List ℕ) (r : Receiver c)
      → r.handle ≡ 0
      → opens r.log ≡ closes r.log
      → h ≢ some 0
      → Balanced (open_session p h total sha r).0
  unfolding open_session
  open_session-Balanced none h total sha r off free gives =
      fail_begin-Balanced no_ota_partition r off free
  open_session-Balanced (some p) none total sha r off free gives =
      fail_begin-Balanced ota_begin_failed r off free
  open_session-Balanced (some p) (some h) total sha r off free gives =
      arm-Balanced p h total sha r (λ e. gives (ap some e)) free

  begin_fresh-Balanced :
      (allow_unsigned : Bool) (total : ℕ) (sha : List ℕ) (sig : Option (List ℕ))
      (p : Option Partition) (h : Option ℕ) (r : Receiver c)
      → h ≢ some 0
      → r.handle ≡ 0
      → opens r.log ≡ closes r.log
      → Balanced
          (begin_fresh allow_unsigned total sha sig (record { partition = p; handle = h }) r).0
  unfolding begin_fresh
  begin_fresh-Balanced allow total sha sig p h r gives off free =
      let r' : Receiver c = (refusal_for allow p total sig r).0 in
      let kept = refusal_for-keeps allow p total sig r in
      let off' : r'.handle ≡ 0 = kept.0 ∙ off in
      let free' : opens r'.log ≡ closes r'.log = rw kept.1 free in
      elim (Option-cases (refusal_for allow p total sig r).1) [
        | inr (reason, e) ↦ rw (e, begin_fresh) (fail_begin-Balanced reason r' off' free')
        | inl e ↦ rw (e, begin_fresh) (open_session-Balanced p h total sha r' off' free' gives)
      ]

  begin-Balanced :
      (allow_unsigned : Bool) (total : ℕ) (sha : List ℕ) (sig : Option (List ℕ))
      (answers : BeginAnswers) (r : Receiver c)
      → answers.handle ≢ some 0
      → Balanced r
      → Balanced (begin allow_unsigned total sha sig answers r).0
  unfolding begin
  begin-Balanced allow total sha sig answers r gives v = elim (Bool-cases (is_receiving r.state)) [
    | inl on ↦
        let torn = teardown-Counts r v.count in
        rw (on, begin)
          (begin_fresh-Balanced allow total sha sig answers.partition answers.handle
            (teardown_ota_handle r) gives torn.1 (ground (arith, torn)))
    | inr off ↦
        rw (off, begin)
          (begin_fresh-Balanced allow total sha sig answers.partition answers.handle r gives
            (ground (arith, v.held)) (ground (arith, v.held, v.count)))
  ]

  step-Balanced :
      (allow_unsigned : Bool) (op : Op) (r : Receiver c)
      → GivesHandles op
      → Balanced r
      → Balanced (step allow_unsigned op r)
  unfolding step
  step-Balanced allow (begins total sha sig answers) r gives v =
      begin-Balanced allow total sha sig answers r gives v
  step-Balanced allow (writes offset bytes write_ok) r gives v =
      write_chunk-Balanced offset bytes write_ok r v
  step-Balanced allow (commits answers) r gives v = commit-Balanced allow answers r v
  step-Balanced allow aborts r gives v = abort-Balanced r v

  -- Over any commands and any answers of the platform, every update handle given out has been given
  -- back but the one of a session that is receiving, provided that `esp_ota_begin` never gives 0.
  pub run-Balanced :
      (allow_unsigned : Bool) (ops : List Op) (r : Receiver c)
      → All GivesHandles ops
      → Balanced r
      → Balanced (run allow_unsigned ops r)
  unfolding run
  run-Balanced allow [] r gives v = v
  run-Balanced allow (op ∷ ops) r gives v =
      run-Balanced allow ops (step allow op r) gives.1 (step-Balanced allow op r gives.0 v)
