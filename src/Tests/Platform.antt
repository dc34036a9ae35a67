-- ===== src/Tests/Platform.antt =====
-- A platform to run the model on: files as a function of their paths, a hash that is the identity,
-- and a signature that is the message itself.
use canshift_firmware.Prelude.{
  ℕ, ◌≡◌, ◌≢◌, refl, sym, ap, ◌∙◌, inl, inr, Bool, true, false, Option, none, some, List, [], ◌∷◌,
  ◌++◌, if◌then◌else◌, length, take, take_all, Bool-cases, Option-cases, arith,
}
use canshift_firmware.Storage.FileSystem.{Spiffs}
use canshift_firmware.Ota.Crypto.{Crypto}
use canshift_firmware.Upload.{str_eq}
use canshift_firmware.Upload.Paths.{str_eq_sound}

abbrev pub Files : Type 0
Files = List ℕ → Option (List ℕ)

abbrev put : Files → List ℕ → Option (List ℕ) → Files
put fs p v q = if str_eq p q then v else fs q

str_eq_refl : (p : List ℕ) → str_eq p p ≡ true
str_eq_refl [] = refl
str_eq_refl (c ∷ cs) = ground (arith, str_eq_refl cs)

pub put_self : (fs : Files) (p : List ℕ) (v : Option (List ℕ)) → put fs p v p ≡ v
put_self fs p v = rw (str_eq_refl p) refl

pub put_other : (fs : Files) (p q : List ℕ) (v : Option (List ℕ)) → p ≢ q → put fs p v q ≡ fs q
put_other fs p q v h = elim (Bool-cases (str_eq p q)) [
  | inl e ↦ absurd (h (str_eq_sound p q e))
  | inr e ↦ rw e refl
]

abbrev present : Option (List ℕ) → Bool
present none = false
present (some bytes) = true

abbrev remove : Files → List ℕ → Files × Bool
remove fs p = elim (fs p) [ none ↦ (fs, false) | some bytes ↦ (put fs p none, true) ]

abbrev rename : Files → List ℕ → List ℕ → Files × Bool
rename fs p q = elim (fs p) [
  | none ↦ (fs, false)
  | some bytes ↦ (put (put fs p none) q (some bytes), true)
]

abbrev append : Files → List ℕ → List ℕ → Files × ℕ
append fs p bytes = elim (fs p) [
  | none ↦ (fs, 0)
  | some old ↦ (put fs p (some (old ++ bytes)), length bytes)
]

pub remove_done : (fs : Files) (p : List ℕ) → (remove fs p).1 ≡ true → (remove fs p).0 p ≡ none
remove_done fs p e = elim (Option-cases (fs p)) [
  | inl n ↦ absurd (ground arith)
  | inr (bytes, k) ↦ rw (k, remove) (put_self fs p none)
]

pub remove_failed : (fs : Files) (p : List ℕ) → (remove fs p).1 ≡ false → (remove fs p).0 p ≡ fs p
remove_failed fs p e = elim (Option-cases (fs p)) [
  | inl n ↦ rw (n, remove) n
  | inr (bytes, k) ↦ absurd (ground arith)
]

pub remove_other : (fs : Files) (p q : List ℕ) → p ≢ q → (remove fs p).0 q ≡ fs q
remove_other fs p q h = elim (Option-cases (fs p)) [
  | inl n ↦ rw (n, remove) refl
  | inr (bytes, k) ↦ rw (k, remove) (put_other fs p q none h)
]

pub rename_done :
    (fs : Files) (p q : List ℕ) → (rename fs p q).1 ≡ true → (rename fs p q).0 q ≡ fs p
rename_done fs p q e = elim (Option-cases (fs p)) [
  | inl n ↦ absurd (ground arith)
  | inr (bytes, k) ↦ rw (k, rename) (put_self (put fs p none) q (some bytes))
]

pub rename_gone :
    (fs : Files) (p q : List ℕ) → p ≢ q → (rename fs p q).1 ≡ true → (rename fs p q).0 p ≡ none
rename_gone fs p q h e = elim (Option-cases (fs p)) [
  | inl n ↦ absurd (ground arith)
  | inr (bytes, k) ↦
      rw (k, rename)
        (put_other (put fs p none) q p (some bytes) (λ same. h (sym same)) ∙ put_self fs p none)
]

pub rename_failed :
    (fs : Files) (p q r : List ℕ) → (rename fs p q).1 ≡ false → (rename fs p q).0 r ≡ fs r
rename_failed fs p q r e = elim (Option-cases (fs p)) [
  | inl n ↦ rw (n, rename) refl
  | inr (bytes, k) ↦ absurd (ground arith)
]

pub rename_other : (fs : Files) (p q r : List ℕ) → p ≢ r → q ≢ r → (rename fs p q).0 r ≡ fs r
rename_other fs p q r h l = elim (Option-cases (fs p)) [
  | inl n ↦ rw (n, rename) refl
  | inr (bytes, k) ↦
      rw (k, rename) (put_other (put fs p none) q r (some bytes) l ∙ put_other fs p r none h)
]

pub some_inj : (a b : Files) → some a ≡ some b → a ≡ b
some_inj a b e = ap (λ o. elim o [ none ↦ a | some x ↦ x ]) e

pub append_taken :
    (fs : Files) (p bytes old : List ℕ)
    → fs p ≡ some old
    → (append fs p bytes).0 p ≡ some (old ++ take (append fs p bytes).1 bytes)
append_taken fs p bytes old k =
    rw (k, append)
      (put_self fs p (some (old ++ bytes))
        ∙ ap (λ t. some (old ++ t)) (sym (take_all (length bytes) bytes (omega arith))))

pub append_other : (fs : Files) (p q bytes : List ℕ) → p ≢ q → (append fs p bytes).0 q ≡ fs q
append_other fs p q bytes h = elim (Option-cases (fs p)) [
  | inl n ↦ rw (n, append) refl
  | inr (old, k) ↦ rw (k, append) (put_other fs p q (some (old ++ bytes)) h)
]

pub some_list_inj : (a b : List ℕ) → some a ≡ some b → a ≡ b
some_list_inj a b e = ap (λ o. elim o [ none ↦ a | some x ↦ x ]) e

pub some_pair_inj : (a b : List ℕ × List ℕ) → some a ≡ some b → a ≡ b
some_pair_inj a b e = ap (λ o. elim o [ none ↦ a | some x ↦ x ]) e

abbrev pub flat : Spiffs
flat = record {
  Fs = Files;
  content = λ fs p. fs p;
  exists = λ fs p. present (fs p);
  remove = remove;
  rename = rename;
  mkdir = λ fs p. (fs, true);
  open_write = λ fs p. some (put fs p (some []));
  append = append;
  remove_done = remove_done;
  remove_failed = remove_failed;
  remove_other = remove_other;
  rename_done = rename_done;
  rename_gone = rename_gone;
  rename_failed = rename_failed;
  rename_other = rename_other;
  mkdir_content = λ fs p q. refl;
  open_empty = λ fs fs' p e.
      ap (λ f. f p) (sym (some_inj (put fs p (some [])) fs' e)) ∙ put_self fs p (some []);
  open_other = λ fs fs' p q e h.
      ap (λ f. f q) (sym (some_inj (put fs p (some [])) fs' e)) ∙ put_other fs p q (some []) h;
  append_taken = append_taken;
  append_other = append_other;
}

abbrev pub trust : Crypto
trust = record {
  Sha = List ℕ;
  sha_init = [];
  sha_starts = λ sha. some [];
  sha_update = λ sha bytes. some (sha ++ bytes);
  sha_finish = λ sha. some sha;
  sha_fed = λ sha. sha;
  digest = λ bytes. bytes;
  sha_starts_fed = λ sha sha' e. sym (some_list_inj [] sha' e);
  sha_update_fed = λ sha sha' bytes e. sym (some_list_inj (sha ++ bytes) sha' e);
  sha_finish_fed = λ sha d e. sym (some_list_inj sha d e);
  Verifier = List ℕ × List ℕ;
  begin_release = λ s. some (s, []);
  verifier_update = λ v bytes. (v.0, v.1 ++ bytes);
  verifier_finish = λ v. str_eq v.0 v.1;
  signature_of = λ v. v.0;
  verifier_fed = λ v. v.1;
  verifies = str_eq;
  begin_release_fed = λ s v e. ap (λ w. w.1) (sym (some_pair_inj (s, []) v e));
  begin_release_signature = λ s v e. ap (λ w. w.0) (sym (some_pair_inj (s, []) v e));
  verifier_update_fed = λ v bytes. refl;
  verifier_update_signature = λ v bytes. refl;
  verifier_finish_fed = λ v. refl;
}
