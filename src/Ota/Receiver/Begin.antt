-- ===== src/Ota/Receiver/Begin.antt =====
-- `OtaReceiver::begin`: a session that it starts is healthy and empty.
use canshift_firmware.Prelude.{
  ℕ, ◌≤◌, ◌<◌, ◌≡◌, inl, inr, refl, ap, ◌∙◌, sym, Bool, ◌||◌, Option, none, some, List, [], ◌∷◌,
  ltb, length, arith, Bool-cases, Option-cases,
}
use canshift_firmware.Ota.Crypto.{Crypto}
use canshift_firmware.Ota.Flash.{Partition, Call, opened, image}
use canshift_firmware.Ota.Receiver.{
  receiving, Receiver, BeginAnswers, is_receiving, app_header_probe_bytes, header_probe_rejects,
  teardown_ota_handle, begin, begin_fresh, refusal_for, start_signature, start_session, arm,
  start_sha_context,
}
use canshift_firmware.Ota.Receiver.Inv.{Begun, is_some, Checks, img, Healthy}

-- The answers of the platform that let `begin` go on.
abbrev pub grant : Begun → BeginAnswers
grant b = record { partition = some b.target; handle = some b.handle }

image_opened : (p : Partition) (h : ℕ) (log : List Call) → image h (opened p h ∷ log) ≡ []
unfolding image
image_opened p h log = ground arith

module _ {c : Crypto} where
  -- A healthy session with nothing written yet.
  abbrev pub Fresh : Begun → Receiver c → Type 0
  Fresh b r = Healthy b r × (img r ≡ [])

  -- A session that has just been started, with the signature slot prepared.
  begun-Healthy :
      (b : Begun) (r : Receiver c) (sha : c.Sha)
      → c.sha_starts c.sha_init ≡ some sha
      → r.signed ≡ is_some b.signature
      → Checks c b.signature r.signature []
      → app_header_probe_bytes ≤ b.total
      → b.total < 2147483648
      → length r.header_probe ≡ app_header_probe_bytes
      → Fresh b (record (start_session b.target b.handle b.total b.expected_sha r) {
        sha = sha;
        state = receiving;
      })
  unfolding start_session header_probe_rejects
  begun-Healthy b r sha e s h large small size =
      let empty = image_opened b.target b.handle r.log in
      (
        record {
          live = record {
            state = refl;
            handle = refl;
            target = refl;
            expected_size = refl;
            expected_sha = refl;
            signed = s;
            small = small;
            large = large;
            written = rw empty refl;
            within = rw empty (omega arith);
            hashed = c.sha_starts_fed c.sha_init sha e ∙ sym empty;
            checks = rw empty h;
          };
          probe = record { size = size; filled = rw empty refl; start = rw empty refl };
          passes = refl;
        },
        empty,
      )

  arm-Healthy :
      (b : Begun) (r : Receiver c)
      → r.signed ≡ is_some b.signature
      → Checks c b.signature r.signature []
      → app_header_probe_bytes ≤ b.total
      → b.total < 2147483648
      → length r.header_probe ≡ app_header_probe_bytes
      → (arm (start_session b.target b.handle b.total b.expected_sha r)).1 ≡ none
      → Fresh b (arm (start_session b.target b.handle b.total b.expected_sha r)).0
  unfolding arm
  arm-Healthy b r s h large small size ok = elim (Option-cases (c.sha_starts c.sha_init)) [
    | inl e ↦ absurd (ground arith)
    | inr (sha, e) ↦ rw (e, arm, start_sha_context) (begun-Healthy b r sha e s h large small size)
  ]

  -- What `refusalFor` has prepared when it refuses nothing.
  record Prepared (b : Begun) (r r' : Receiver c) : Type 0 where
    signed : r'.signed ≡ is_some b.signature
    checks : Checks c b.signature r'.signature []
    large : app_header_probe_bytes ≤ b.total
    fits : b.total ≤ b.target.size
    probe : r'.header_probe ≡ r.header_probe

  start_signature-Checks :
      (allow_unsigned : Bool) (given : Option (List ℕ)) (r : Receiver c)
      → (start_signature allow_unsigned given r).1 ≡ none
      → let r' = (start_signature allow_unsigned given r).0 in
        (r'.signed ≡ is_some given)
        × Checks c given r'.signature []
        × (r'.header_probe ≡ r.header_probe)
  unfolding start_signature
  start_signature-Checks allow none r ok = (refl, tt, refl)
  start_signature-Checks allow (some s) r ok = elim (Option-cases (c.begin_release s)) [
    | inl e ↦ absurd (ground arith)
    | inr (v, e) ↦
        rw (e, start_signature)
          (refl, (c.begin_release_signature s v e, c.begin_release_fed s v e), refl)
  ]

  refusal_for-Prepared :
      (allow_unsigned : Bool) (b : Begun) (r : Receiver c)
      → (refusal_for allow_unsigned (some b.target) b.total b.signature r).1 ≡ none
      → Prepared b r (refusal_for allow_unsigned (some b.target) b.total b.signature r).0
  unfolding refusal_for
  refusal_for-Prepared allow b r ok =
      elim (Bool-cases (ltb b.total app_header_probe_bytes || ltb b.target.size b.total)) [
        | inl e ↦ absurd (ground arith)
        | inr e ↦
            let started = start_signature-Checks allow b.signature r (ground arith) in
            rw e (record {
              signed = started.0;
              checks = started.1;
              large = ground arith;
              fits = ground arith;
              probe = started.2;
            })
      ]

  -- `begin` after the teardown of an earlier session.
  begin_fresh-Healthy :
      (allow_unsigned : Bool) (b : Begun) (r : Receiver c)
      → b.target.size < 2147483648
      → length r.header_probe ≡ app_header_probe_bytes
      → (begin_fresh allow_unsigned b.total b.expected_sha b.signature (grant b) r).1 ≡ none
      → Fresh b (begin_fresh allow_unsigned b.total b.expected_sha b.signature (grant b) r).0
  unfolding begin_fresh
  begin_fresh-Healthy allow b r small size ok =
      elim (Option-cases (refusal_for allow (some b.target) b.total b.signature r).1) [
        | inr (reason, e) ↦ absurd (ground arith)
        | inl e ↦
            let p = refusal_for-Prepared allow b r e in
            rw (e, begin_fresh)
              (arm-Healthy b (refusal_for allow (some b.target) b.total b.signature r).0 p.signed
                p.checks p.large (omega (arith, p.fits)) (ap length p.probe ∙ size)
                (rw (e, begin_fresh) at ok))
      ]

  pub begin-Healthy :
      (allow_unsigned : Bool) (b : Begun) (r : Receiver c)
      → b.target.size < 2147483648
      → length r.header_probe ≡ app_header_probe_bytes
      → (begin allow_unsigned b.total b.expected_sha b.signature (grant b) r).1 ≡ none
      → Fresh b (begin allow_unsigned b.total b.expected_sha b.signature (grant b) r).0
  unfolding begin
  begin-Healthy allow b r small size ok = elim (Bool-cases (is_receiving r.state)) [
    | inl e ↦
        rw (e, begin)
          (begin_fresh-Healthy allow b (teardown_ota_handle r) small
            (unfold teardown_ota_handle in size) (rw (e, begin) at ok))
    | inr e ↦ rw (e, begin) (begin_fresh-Healthy allow b r small size (rw (e, begin) at ok))
  ]
