-- ===== src/Ota/Receiver/Complete.antt =====
-- A good update goes through: chunks in order, of an application image that the host described
-- truthfully, on a platform whose calls succeed.
use canshift_firmware.Prelude.{
  ℕ, ◌+◌, ◌≤◌, ◌<◌, ◌≡◌, ◌≢◌, ◌⊎◌, inl, inr, refl, ap, ◌∙◌, sym, Bool, true, false, Option, none,
  some, List, [], ◌∷◌, ◌++◌, length, add32, arith, length-append, append_assoc, All,
}
use canshift_firmware.Ota.Crypto.{Crypto}
use canshift_firmware.Ota.Receiver.{
  Receiver, WriteResult, is_receiving, app_header_probe_bytes, header_probe_rejects, write_chunk,
  write_probed, capture_header_probe, begin, bytes_eq, signature_accepted, commit,
}
use canshift_firmware.Ota.Receiver.Probe.{IsAppImage}
use canshift_firmware.Ota.Receiver.Probe.{
  IsAppImage, header_probe_rejects_app, capture_header_probe-IsProbe,
}
use canshift_firmware.Ota.Receiver.Inv.{
  Begun, is_some, Checks, img, Healthy, Wrote, accepted, dropped, write_chunk-Wrote,
}
use canshift_firmware.Ota.Receiver.Feed.{Chunk, IsShort, accepted_bytes, feed, feed-Healthy}
use canshift_firmware.Ota.Receiver.Begin.{grant, begin-Healthy}
use canshift_firmware.Ota.Receiver.Commit.{Signed, IsVerified, update}

-- The chunks follow one another from `at` on, none is empty, and the flash takes each.
abbrev pub InOrder : ℕ → List Chunk → Type 0
InOrder at [] = Unit {0}
InOrder at (k ∷ ks) =
    ((k.offset ≡ at) × (length k.bytes ≢ 0) × (k.write_ok ≡ true))
    × InOrder (at + length k.bytes) ks

abbrev pub joined : List Chunk → List ℕ
joined [] = []
joined (k ∷ ks) = k.bytes ++ joined ks

bytes_eq_refl : (xs : List ℕ) → bytes_eq xs xs ≡ true
unfolding bytes_eq
bytes_eq_refl [] = refl
bytes_eq_refl (x ∷ xs) = ground (arith, bytes_eq_refl xs)

module _ {c : Crypto} where
  write_probed_ok :
      (bytes : List ℕ) (r : Receiver c) (sha : c.Sha)
      → header_probe_rejects r ≡ false
      → c.sha_update r.sha bytes ≡ some sha
      → (write_probed bytes true r).1.error ≡ none
  unfolding write_probed
  write_probed_ok bytes r sha passes e = ground arith

  sha-capture : (bytes : List ℕ) (r : Receiver c) → (capture_header_probe bytes r).sha ≡ r.sha
  unfolding capture_header_probe
  sha-capture bytes r = ground arith

  write_chunk_guards :
      (offset : ℕ) (bytes : List ℕ) (write_ok : Bool) (r : Receiver c)
      → is_receiving r.state ≡ true
      → length bytes ≢ 0
      → offset ≡ r.written_size
      → add32 r.written_size (length bytes) ≤ r.expected_size
      → write_ok ≡ true
      → (write_probed bytes true (capture_header_probe bytes r)).1.error ≡ none
      → (write_chunk offset bytes write_ok r).1.error ≡ none
  unfolding write_chunk
  write_chunk_guards offset bytes write_ok r on full at fit ok stored = ground arith

  write_chunk_ok :
      (b : Begun) (k : Chunk) (rest : List ℕ) (r : Receiver c) (sha : c.Sha)
      → IsShort k
      → Healthy b r
      → k.offset ≡ length (img r)
      → length k.bytes ≢ 0
      → k.write_ok ≡ true
      → length (img r) + length k.bytes ≤ b.total
      → IsAppImage ((img r ++ k.bytes) ++ rest)
      → c.sha_update r.sha k.bytes ≡ some sha
      → (write_chunk k.offset k.bytes k.write_ok r).1.error ≡ none
  write_chunk_ok b k rest r sha short v at full ok fit app e =
      let r' : Receiver c = capture_header_probe k.bytes r in
      let passes : header_probe_rejects r' ≡ false =
        header_probe_rejects_app (img r ++ k.bytes) rest r'
          (capture_header_probe-IsProbe (img r) k.bytes r v.probe) app in
      let stored : (write_probed k.bytes true r').1.error ≡ none =
        write_probed_ok k.bytes r' sha passes
          (ap (λ t. c.sha_update t k.bytes) (sha-capture k.bytes r) ∙ e) in
      write_chunk_guards k.offset k.bytes k.write_ok r (ap is_receiving v.live.state) full
        (at ∙ sym v.live.written)
        (omega (arith, v.live.written, v.live.expected_size, v.live.small)) ok stored

  feed-All_next :
      (b : Begun) (k : Chunk) (ks : List Chunk) (r : Receiver c) (out : Receiver c × WriteResult)
      → ((r' : Receiver c)
          → Healthy b r'
          → img r' ≡ img r ++ k.bytes
          → Healthy b (feed ks r').0 × ((feed ks r').1 ≡ joined ks))
      → out.1.error ≡ none
      → ((out.0 ≡ r) × (out.1.error ≢ none) × (out.1.written_total ≡ r.written_size))
        ⊎ Wrote b (img r) k.bytes out
      → Healthy b (feed ks out.0).0
        × (accepted_bytes k.bytes out.1 ++ (feed ks out.0).1 ≡ k.bytes ++ joined ks)
  feed-All_next b k ks r (r', w) ih ok (inl (same, err, count)) = absurd (err ok)
  feed-All_next b k ks r (r', w) ih ok (inr (dropped over closed bad count)) = absurd (bad ok)
  feed-All_next b k ks r (r', w) ih ok (inr (accepted live grown probe passes good total)) =
      let rest = ih r' (record { live = live; probe = probe; passes = passes }) grown in
      (rest.0, ground (arith, rest.1))

  -- Every taken chunk goes on where the last one ended.
  feed-All :
      (b : Begun) (ks : List Chunk) (r : Receiver c)
      → ((s : c.Sha) (bytes : List ℕ) → (s' : c.Sha) × (c.sha_update s bytes ≡ some s'))
      → All IsShort ks
      → Healthy b r
      → InOrder (length (img r)) ks
      → length (img r) + length (joined ks) ≤ b.total
      → IsAppImage (img r ++ joined ks)
      → Healthy b (feed ks r).0 × ((feed ks r).1 ≡ joined ks)
  unfolding feed
  feed-All b [] r total short v order fit app = (v, refl)
  feed-All b (k ∷ ks) r total short v order fit app =
      let (sha, e) = total r.sha k.bytes in
      let grown : length (img r ++ k.bytes) ≡ length (img r) + length k.bytes =
        length-append (img r) k.bytes in
      let whole : IsAppImage ((img r ++ k.bytes) ++ joined ks) =
        rw (append_assoc (img r) k.bytes (joined ks)) app in
      let room : length (img r) + length k.bytes + length (joined ks) ≤ b.total =
        omega (arith, fit, length-append k.bytes (joined ks)) in
      feed-All_next b k ks r (write_chunk k.offset k.bytes k.write_ok r)
        (λ r' v' g.
          feed-All b ks r' total short.1 v' (rw (ap length g ∙ grown) order.1)
            (omega (arith, ap length g, grown, room)) (rw g whole))
        (write_chunk_ok b k (joined ks) r sha short.0 v order.0.0 order.0.1 order.0.2
          (omega (arith, room)) whole e)
        (write_chunk-Wrote b k.offset k.bytes k.write_ok r short.0 v)

  signature_accepted_ok :
      (allow_unsigned : Bool) (r : Receiver c) (given : Option (List ℕ)) (slot : Option c.Verifier)
      → r.signature ≡ slot
      → r.signed ≡ is_some given
      → Checks c given slot (img r)
      → Signed c allow_unsigned given (img r)
      → signature_accepted allow_unsigned r ≡ true
  unfolding signature_accepted
  signature_accepted_ok allow r none none e s h ok = ground arith
  signature_accepted_ok allow r none (some v) e s h ok = absurd h
  signature_accepted_ok allow r (some sig) none e s h ok = absurd h
  signature_accepted_ok allow r (some sig) (some v) e s h ok =
      ground (arith, c.verifier_finish_fed v)

  commit_ok :
      (allow_unsigned : Bool) (b : Begun) (r : Receiver c) (d : List ℕ)
      → Healthy b r
      → IsVerified c allow_unsigned b (img r)
      → c.sha_finish r.sha ≡ some d
      → (commit allow_unsigned (record { end_code = 0; set_boot_code = 0 }) r).1.error ≡ none
  unfolding commit
  commit_ok allow b r d v k e =
      let same : bytes_eq d r.expected_sha ≡ true =
        rw
          (c.sha_finish_fed r.sha d e ∙ ap c.digest v.live.hashed ∙ k.sha ∙ sym v.live.expected_sha)
          (bytes_eq_refl r.expected_sha) in
      ground (
        arith,
        same,
        v.live.state,
        v.live.written,
        v.live.expected_size,
        k.size,
        signature_accepted_ok allow r b.signature r.signature refl v.live.signed v.live.checks
            k.signed,
      )

  -- After a successful `begin`, chunks that follow one another without gap or overlap and join to an
  -- image as it was announced (size, digest, magic numbers, signature) are all taken, and `commit`
  -- succeeds, on a platform whose flash and hash calls succeed.
  pub update_completes :
      (allow_unsigned : Bool) (b : Begun) (ks : List Chunk) (r : Receiver c)
      → ((s : c.Sha) (bytes : List ℕ) → (s' : c.Sha) × (c.sha_update s bytes ≡ some s'))
      → ((s : c.Sha) → (d : List ℕ) × (c.sha_finish s ≡ some d))
      → b.target.size < 2147483648
      → length r.header_probe ≡ app_header_probe_bytes
      → (begin allow_unsigned b.total b.expected_sha b.signature (grant b) r).1 ≡ none
      → All IsShort ks
      → InOrder 0 ks
      → IsVerified c allow_unsigned b (joined ks)
      → ((update allow_unsigned b ks r).1 ≡ joined ks)
        × ((commit allow_unsigned
              (record { end_code = 0; set_boot_code = 0 })
              (update allow_unsigned b ks r).0).1.error
            ≡ none)
  update_completes allow b ks r total fin small size ok short order k =
      let fresh = begin-Healthy allow b r small size ok in
      let start = (begin allow b.total b.expected_sha b.signature (grant b) r).0 in
      let taken =
        feed-All b ks start total short fresh.0 (rw fresh.1 order)
          (rw fresh.1 (omega (arith, k.size))) (rw fresh.1 k.app) in
      let last = (feed ks start).0 in
      let (d, e) = fin last.sha in
      let all : img last ≡ joined ks = elim (feed-Healthy b ks start short fresh.0) [
        | inl (h, behind) ↦ behind ∙ ap (λ t. t ++ (feed ks start).1) fresh.1 ∙ taken.1
        | inr over ↦ absurd (cc (taken.0.live.state, over))
      ] in
      (taken.1, commit_ok allow b last d taken.0 (rw all k) e)
