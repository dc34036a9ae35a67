-- ===== src/Ota/Crypto.antt =====
-- What the receiver takes from mbedTLS and from the Ed25519 verifier behind rust/ota-signature:
-- streaming contexts, and the documented law that a context finishes to the function of the bytes
-- that were fed to it since it was started.
use canshift_firmware.Prelude.{ℕ, ◌≡◌, Bool, Option, some, List, [], ◌++◌}

pub record Crypto : Type 1 where
  -- `mbedtls_sha256_context`; `none` is a call that returns an error.
  pub Sha : Type 0
  pub sha_init : Sha
  pub sha_starts : Sha → Option Sha
  pub sha_update : Sha → List ℕ → Option Sha
  pub sha_finish : Sha → Option (List ℕ)
  pub sha_fed : Sha → List ℕ
  pub digest : List ℕ → List ℕ
  pub sha_starts_fed : (c c' : Sha) → sha_starts c ≡ some c' → sha_fed c' ≡ []
  pub sha_update_fed :
      (c c' : Sha) (bytes : List ℕ) → sha_update c bytes ≡ some c' → sha_fed c' ≡ sha_fed c ++ bytes
  pub sha_finish_fed : (c : Sha) (d : List ℕ) → sha_finish c ≡ some d → d ≡ digest (sha_fed c)
  -- `OtaSignature`, a verification against the release key; `begin_release` is `none` for a
  -- signature that is no valid encoding.
  pub Verifier : Type 0
  pub begin_release : List ℕ → Option Verifier
  pub verifier_update : Verifier → List ℕ → Verifier
  pub verifier_finish : Verifier → Bool
  pub signature_of : Verifier → List ℕ
  pub verifier_fed : Verifier → List ℕ
  pub verifies : List ℕ → List ℕ → Bool
  pub begin_release_fed :
      (s : List ℕ) (v : Verifier) → begin_release s ≡ some v → verifier_fed v ≡ []
  pub begin_release_signature :
      (s : List ℕ) (v : Verifier) → begin_release s ≡ some v → signature_of v ≡ s
  pub verifier_update_fed :
      (v : Verifier) (bytes : List ℕ)
      → verifier_fed (verifier_update v bytes) ≡ verifier_fed v ++ bytes
  pub verifier_update_signature :
      (v : Verifier) (bytes : List ℕ) → signature_of (verifier_update v bytes) ≡ signature_of v
  pub verifier_finish_fed :
      (v : Verifier) → verifier_finish v ≡ verifies (signature_of v) (verifier_fed v)
