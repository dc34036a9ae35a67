-- ===== src/Ota/Receiver/Commit.antt =====
-- One update from its `begin` to its `commit`: what the new boot partition then holds.
use canshift_firmware.Prelude.{
  ℕ, ◌<◌, ◌≡◌, ◌≢◌, inl, inr, refl, ap, ◌∙◌, subst, sym, Bool, true, Option, none, some, List, [],
  ◌∷◌, ◌++◌, length, arith, Option-cases, All,
}
use canshift_firmware.Ota.Crypto.{Crypto}
use canshift_firmware.Ota.Flash.{ended, boot_set, image}
use canshift_firmware.Ota.Receiver.{
  failed, Receiver, CommitAnswers, app_header_probe_bytes, begin, bytes_eq, signature_accepted,
  image_rejection, commit,
}
use canshift_firmware.Ota.Receiver.Probe.{IsAppImage, probe-IsAppImage}
use canshift_firmware.Ota.Receiver.Inv.{Begun, is_some, Checks, img, Healthy}
use canshift_firmware.Ota.Receiver.Feed.{Chunk, IsShort, feed, feed-Healthy}
use canshift_firmware.Ota.Receiver.Begin.{grant, begin-Healthy}

bytes_eq→eq : (xs ys : List ℕ) → bytes_eq xs ys ≡ true → xs ≡ ys
unfolding bytes_eq
bytes_eq→eq [] [] e = refl
bytes_eq→eq [] (y ∷ ys) e = cc
bytes_eq→eq (x ∷ xs) [] e = cc
bytes_eq→eq (x ∷ xs) (y ∷ ys) e = ground (arith, bytes_eq→eq xs ys)

module _ (c : Crypto) where
  -- The signature given to `begin` verifies over the bytes; without one the build must allow it.
  abbrev pub Signed : Bool → Option (List ℕ) → List ℕ → Type 0
  Signed allow_unsigned none bytes = allow_unsigned ≡ true
  Signed allow_unsigned (some s) bytes = c.verifies s bytes ≡ true

  -- The bytes are the image that `begin` announced.
  pub record IsVerified (allow_unsigned : Bool) (b : Begun) (bytes : List ℕ) : Type 0 where
    pub size : length bytes ≡ b.total
    pub sha : c.digest bytes ≡ b.expected_sha
    pub app : IsAppImage bytes
    pub signed : Signed allow_unsigned b.signature bytes

module _ {c : Crypto} where
  signature_accepted-Signed :
      (allow_unsigned : Bool) (r : Receiver c) (given : Option (List ℕ)) (slot : Option c.Verifier)
      → r.signature ≡ slot
      → r.signed ≡ is_some given
      → Checks c given slot (img r)
      → signature_accepted allow_unsigned r ≡ true
      → Signed c allow_unsigned given (img r)
  unfolding signature_accepted
  signature_accepted-Signed allow r none none e s h ok = ground arith
  signature_accepted-Signed allow r none (some v) e s h ok = absurd h
  signature_accepted-Signed allow r (some sig) none e s h ok = absurd h
  signature_accepted-Signed allow r (some sig) (some v) e s h ok =
      ground (arith, c.verifier_finish_fed v)

  image_rejection-IsVerified :
      (allow_unsigned : Bool) (b : Begun) (r : Receiver c)
      → Healthy b r
      → image_rejection allow_unsigned r ≡ none
      → IsVerified c allow_unsigned b (img r)
  unfolding image_rejection
  image_rejection-IsVerified allow b r v e = elim (Option-cases (c.sha_finish r.sha)) [
    | inl none_e ↦ absurd (ground arith)
    | inr (actual, fin) ↦
        let whole : length (img r) ≡ b.total =
          ground (arith, v.live.written, v.live.expected_size) in
        let ok : signature_accepted allow r ≡ true = ground arith in
        let same : bytes_eq actual r.expected_sha ≡ true = ground arith in
        record {
          size = whole;
          sha =
              ap c.digest (sym v.live.hashed)
              ∙ sym (c.sha_finish_fed r.sha actual fin)
              ∙ bytes_eq→eq actual r.expected_sha same
              ∙ v.live.expected_sha;
          app = probe-IsAppImage (img r) r v.probe (omega (arith, v.live.large)) v.passes;
          signed =
              signature_accepted-Signed allow r b.signature r.signature refl v.live.signed
                v.live.checks ok;
        }
  ]

  commit-Healthy :
      (allow_unsigned : Bool) (answers : CommitAnswers) (b : Begun) (r : Receiver c)
      → Healthy b r
      → (commit allow_unsigned answers r).1.error ≡ none
      → IsVerified c allow_unsigned b (img r)
        × ((commit allow_unsigned answers r).0.log
            ≡ boot_set (some b.target) ∷ ended b.handle ∷ r.log)
  unfolding commit
  commit-Healthy allow answers b r v e = elim (Option-cases (image_rejection allow r)) [
    | inl fine ↦ (
      image_rejection-IsVerified allow b r v fine,
      ground (arith, v.live.state, v.live.target, v.live.handle),
    )
    | inr (reason, bad) ↦ absurd (ground (arith, v.live.state))
  ]

  commit_failed :
      (allow_unsigned : Bool) (answers : CommitAnswers) (r : Receiver c)
      → r.state ≡ failed
      → (commit allow_unsigned answers r).1.error ≢ none
  unfolding commit
  commit_failed allow answers r over = ground arith

  -- `begin`, answered by the platform, and the chunks; with the bytes of those that were taken.
  abbrev pub update : Bool → Begun → List Chunk → Receiver c → Receiver c × List ℕ
  update allow_unsigned b ks r =
      feed ks (begin allow_unsigned b.total b.expected_sha b.signature (grant b) r).0

  -- A whole update, from a successful `begin` over any chunks in any order to a successful `commit`:
  -- the bytes that the flash holds under the update's handle are the chunks that were taken, in
  -- order; they have the announced size and SHA-256 digest and the two magic numbers of an
  -- application image; the given signature verifies over them, and without one the build allows
  -- unsigned images; and the calls that follow close that handle and make the partition of `begin`
  -- the boot partition.
  pub commit-IsVerified :
      (allow_unsigned : Bool) (b : Begun) (ks : List Chunk) (answers : CommitAnswers)
      (r : Receiver c)
      → b.target.size < 2147483648
      → length r.header_probe ≡ app_header_probe_bytes
      → (begin allow_unsigned b.total b.expected_sha b.signature (grant b) r).1 ≡ none
      → All IsShort ks
      → (commit allow_unsigned answers (update allow_unsigned b ks r).0).1.error ≡ none
      → let (r', bytes) = update allow_unsigned b ks r in
        IsVerified c allow_unsigned b bytes
        × (image b.handle r'.log ≡ bytes)
        × ((commit allow_unsigned answers r').0.log
            ≡ boot_set (some b.target) ∷ ended b.handle ∷ r'.log)
  commit-IsVerified allow b ks answers r small size ok short done =
      let fresh = begin-Healthy allow b r small size ok in
      let start = (begin allow b.total b.expected_sha b.signature (grant b) r).0 in
      elim (feed-Healthy b ks start short fresh.0) [
        | inl (healthy, behind) ↦
            let all : img (feed ks start).0 ≡ (feed ks start).1 =
              behind ∙ ap (λ t. t ++ (feed ks start).1) fresh.1 in
            let held = commit-Healthy allow answers b (feed ks start).0 healthy done in
            (
              subst (IsVerified c allow b) all held.0,
              ap (λ h. image h (feed ks start).0.log) (sym healthy.live.handle) ∙ all,
              held.1,
            )
        | inr over ↦ absurd (commit_failed allow answers (feed ks start).0 over done)
      ]
