-- ===== src/Ota/Receiver/Inv.antt =====
-- What holds while src/runtime/ota_receiver.cpp receives the image of one `begin`.
use canshift_firmware.Prelude.{
  ℕ, ◌+◌, ◌≤◌, ◌<◌, ◌≡◌, ◌≢◌, ◌⊎◌, inl, inr, refl, ap, ◌∙◌, subst, sym, Bool, true, false, Option,
  none, some, List, ◌∷◌, ◌++◌, ltb, leb, ◌==◌, length, add32, arith, length-append, Bool-cases,
  Option-cases,
}
use canshift_firmware.Ota.Crypto.{Crypto}
use canshift_firmware.Ota.Flash.{Partition, Call, wrote, image}
use canshift_firmware.Ota.Receiver.{
  receiving, failed, Receiver, WriteResult, is_receiving, app_header_probe_bytes,
  capture_header_probe, header_probe_rejects, store_chunk, write_probed, write_chunk,
}
use canshift_firmware.Ota.Receiver.Probe.{IsProbe, capture_header_probe-IsProbe}

-- What a successful `begin` was given.
pub record Begun : Type 0 where
  pub total : ℕ
  pub expected_sha : List ℕ
  pub signature : Option (List ℕ)
  pub target : Partition
  pub handle : ℕ

abbrev pub is_some : Option (List ℕ) → Bool
is_some none = false
is_some (some s) = true

image_wrote :
    (h : ℕ) (bytes : List ℕ) (log : List Call)
    → image h (wrote h bytes ∷ log) ≡ image h log ++ bytes
unfolding image
image_wrote h bytes log = ground arith

module _ (c : Crypto) where
  -- The signature slot checks the given signature over the bytes.
  abbrev pub Checks : Option (List ℕ) → Option c.Verifier → List ℕ → Type 0
  Checks none none fed = Unit {0}
  Checks none (some v) fed = ⊥
  Checks (some s) none fed = ⊥
  Checks (some s) (some v) fed = (c.signature_of v ≡ s) × (c.verifier_fed v ≡ fed)

  -- The update of the signature slot in `writeChunk`.
  abbrev next_signature : Option c.Verifier → List ℕ → Option c.Verifier
  next_signature signature bytes = elim signature [
    | none ↦ none
    | some v ↦ some (c.verifier_update v bytes)
  ]

  next_signature-Checks :
      (s : Option (List ℕ)) (slot : Option c.Verifier) (fed bytes : List ℕ)
      → Checks s slot fed
      → Checks s (next_signature slot bytes) (fed ++ bytes)
  next_signature-Checks none none fed bytes h = tt
  next_signature-Checks none (some v) fed bytes h = h
  next_signature-Checks (some s) none fed bytes h = h
  next_signature-Checks (some s) (some v) fed bytes h = (
    c.verifier_update_signature v bytes ∙ h.0,
    c.verifier_update_fed v bytes ∙ ap (λ t. t ++ bytes) h.1,
  )

module _ {c : Crypto} where
  -- The bytes that have reached the flash in the open session.
  abbrev pub img : Receiver c → List ℕ
  img r = image r.handle r.log

  pub record Live (b : Begun) (r : Receiver c) : Type 0 where
    pub state : r.state ≡ receiving
    pub handle : r.handle ≡ b.handle
    pub target : r.target ≡ some b.target
    pub expected_size : r.expected_size ≡ b.total
    pub expected_sha : r.expected_sha ≡ b.expected_sha
    pub signed : r.signed ≡ is_some b.signature
    pub small : b.total < 2147483648
    pub large : app_header_probe_bytes ≤ b.total
    pub written : r.written_size ≡ length (img r)
    pub within : length (img r) ≤ b.total
    pub hashed : c.sha_fed r.sha ≡ img r
    pub checks : Checks c b.signature r.signature (img r)

  -- What one chunk may do to a live session that has `before` in the flash.
  pub data Wrote (b : Begun) (before bytes : List ℕ) : Receiver c × WriteResult → Type 0 where
    accepted :
        {r : Receiver c} {w : WriteResult}
        → Live b r
        → img r ≡ before ++ bytes
        → IsProbe (img r) r.header_probe r.header_probe_len
        → header_probe_rejects r ≡ false
        → w.error ≡ none
        → w.written_total ≡ length (before ++ bytes)
        → Wrote b before bytes (r, w)
    dropped :
        {r : Receiver c} {w : WriteResult}
        → r.state ≡ failed
        → r.handle ≡ 0
        → w.error ≢ none
        → w.written_total ≡ 0
        → Wrote b before bytes (r, w)

  stored-Live :
      (b : Begun) (bytes : List ℕ) (r : Receiver c) (sha : c.Sha)
      → Live b r
      → length (img r) + length bytes ≤ b.total
      → c.sha_update r.sha bytes ≡ some sha
      → Live b (record r {
        log = wrote r.handle bytes ∷ r.log;
        sha = sha;
        signature = next_signature c r.signature bytes;
        written_size = add32 r.written_size (length bytes);
      })
  stored-Live b bytes r sha v fit e =
      let whole = image_wrote r.handle bytes r.log in
      record {
        state = v.state;
        handle = v.handle;
        target = v.target;
        expected_size = v.expected_size;
        expected_sha = v.expected_sha;
        signed = v.signed;
        small = v.small;
        large = v.large;
        written = rw whole (omega (arith, v.written, v.small, length-append (img r) bytes));
        within = rw whole (omega (arith, length-append (img r) bytes));
        hashed = c.sha_update_fed r.sha sha bytes e ∙ ap (λ t. t ++ bytes) v.hashed ∙ sym whole;
        checks = rw whole (next_signature-Checks c b.signature r.signature (img r) bytes v.checks);
      }

  store_chunk-Wrote :
      (b : Begun) (bytes : List ℕ) (write_ok : Bool) (r : Receiver c)
      → Live b r
      → length (img r) + length bytes ≤ b.total
      → IsProbe (img r ++ bytes) r.header_probe r.header_probe_len
      → header_probe_rejects r ≡ false
      → Wrote b (img r) bytes (store_chunk bytes write_ok r)
  unfolding store_chunk
  store_chunk-Wrote b bytes false r v fit p ok = dropped refl refl (λ e. cc) refl
  store_chunk-Wrote b bytes true r v fit p ok = elim (Option-cases (c.sha_update r.sha bytes)) [
    | inl e ↦ rw e (dropped refl refl (λ e'. cc) refl)
    | inr (sha, e) ↦ rw e (
        accepted (stored-Live b bytes r sha v fit e) (image_wrote r.handle bytes r.log)
          (rw (image_wrote r.handle bytes r.log) p) (unfold header_probe_rejects in ok) refl
          (omega (arith, v.written, v.small, length-append (img r) bytes)))
  ]

  pub record Healthy (b : Begun) (r : Receiver c) : Type 0 where
    pub live : Live b r
    pub probe : IsProbe (img r) r.header_probe r.header_probe_len
    pub passes : header_probe_rejects r ≡ false

  write_probed-Wrote :
      (b : Begun) (bytes : List ℕ) (write_ok : Bool) (r : Receiver c)
      → Live b r
      → length (img r) + length bytes ≤ b.total
      → IsProbe (img r ++ bytes) r.header_probe r.header_probe_len
      → Wrote b (img r) bytes (write_probed bytes write_ok r)
  unfolding write_probed
  write_probed-Wrote b bytes write_ok r v fit p = elim (Bool-cases (header_probe_rejects r)) [
    | inl bad ↦ rw bad (dropped refl refl (λ e. cc) refl)
    | inr good ↦ rw good (store_chunk-Wrote b bytes write_ok r v fit p good)
  ]

  Live-probe :
      (b : Begun) (r : Receiver c) (probe : List ℕ) (n : ℕ)
      → Live b r
      → Live b (record r { header_probe = probe; header_probe_len = n })
  Live-probe b r probe n v = record {
    state = v.state;
    handle = v.handle;
    target = v.target;
    expected_size = v.expected_size;
    expected_sha = v.expected_sha;
    signed = v.signed;
    small = v.small;
    large = v.large;
    written = v.written;
    within = v.within;
    hashed = v.hashed;
    checks = v.checks;
  }

  capture-Live :
      (b : Begun) (bytes : List ℕ) (r : Receiver c)
      → Live b r
      → Live b (capture_header_probe bytes r)
  unfolding capture_header_probe
  capture-Live b bytes r v = elim (Bool-cases (leb app_header_probe_bytes r.header_probe_len)) [
    | inl e ↦ rw e v
    | inr e ↦ rw e (Live-probe b r _ _ v)
  ]

  capture-img : (bytes : List ℕ) (r : Receiver c) → img (capture_header_probe bytes r) ≡ img r
  unfolding capture_header_probe
  capture-img bytes r = ground arith

  captured-Wrote :
      (b : Begun) (bytes : List ℕ) (write_ok : Bool) (r : Receiver c)
      → Healthy b r
      → length (img r) + length bytes ≤ b.total
      → Wrote b (img r) bytes (write_probed bytes write_ok (capture_header_probe bytes r))
  captured-Wrote b bytes write_ok r v fit =
      let same = capture-img bytes r in
      subst (λ t. Wrote b t bytes (write_probed bytes write_ok (capture_header_probe bytes r))) same
        (write_probed-Wrote b bytes write_ok (capture_header_probe bytes r)
          (capture-Live b bytes r v.live) (rw same fit)
          (rw same (capture_header_probe-IsProbe (img r) bytes r v.probe)))

  -- A chunk is refused and changes nothing, or goes on at the end of the image, or ends the session.
  pub write_chunk-Wrote :
      (b : Begun) (offset : ℕ) (bytes : List ℕ) (write_ok : Bool) (r : Receiver c)
      → length bytes < 2147483648
      → Healthy b r
      → (((write_chunk offset bytes write_ok r).0 ≡ r)
          × ((write_chunk offset bytes write_ok r).1.error ≢ none)
          × ((write_chunk offset bytes write_ok r).1.written_total ≡ r.written_size))
        ⊎ Wrote b (img r) bytes (write_chunk offset bytes write_ok r)
  unfolding write_chunk
  write_chunk-Wrote b offset bytes write_ok r short v =
      rw (ap is_receiving v.live.state) (elim (Bool-cases (length bytes == 0)) [
        | inl e1 ↦ rw e1 (inl (refl, (λ e. cc), refl))
        | inr e1 ↦ rw e1 (elim (Bool-cases (offset == r.written_size)) [
          | inr e2 ↦ rw e2 (inl (refl, (λ e. cc), refl))
          | inl e2 ↦
              rw e2 (elim (Bool-cases (ltb r.expected_size (add32 r.written_size (length bytes)))) [
                | inl e3 ↦ rw e3 (inl (refl, (λ e. cc), refl))
                | inr e3 ↦ rw e3 (
                    inr (
                      captured-Wrote b bytes write_ok r v (
                        ground (
                          arith, v.live.written, v.live.expected_size, v.live.small, v.live.within,
                        ))))
              ])
        ])
      ])
