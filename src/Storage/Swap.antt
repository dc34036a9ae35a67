-- ===== src/Storage/Swap.antt =====
-- The swap of src/hal/storage/storage_atomic_swap.cpp on the contents of the files.
use canshift_firmware.Prelude.{
  ℕ, ◌≡◌, ◌≢◌, ◌⊎◌, inl, inr, refl, ◌∙◌, sym, subst, ◌<◌, Bool, true, false, some, List, [], ◌∷◌,
  ◌++◌, length, Bool-cases, arith,
}
use canshift_firmware.Storage.FileSystem.{Spiffs}
use canshift_firmware.Storage.{
  suffixed_path_len, cfg_max_path_len, tmp_suffix, bak_suffix, build_suffixed_path, finalize,
  drop_tmp, drop_stale_backup, restore_original, promote_tmp, swap_in,
}

pub suffix_ne : (p : List ℕ) (c : ℕ) (cs : List ℕ) → p ++ c ∷ cs ≢ p
suffix_ne [] c cs e = ground arith
suffix_ne (x ∷ p) c cs e = suffix_ne p c cs (ground arith)

pub tmp_bak_ne : (p : List ℕ) → p ++ tmp_suffix ≢ p ++ bak_suffix
tmp_bak_ne [] e = ground arith
tmp_bak_ne (x ∷ p) e = tmp_bak_ne p (ground arith)

pub build_tmp :
    (path : List ℕ)
    → length path < cfg_max_path_len
    → build_suffixed_path suffixed_path_len path tmp_suffix ≡ some (path ++ tmp_suffix)
unfolding build_suffixed_path
build_tmp path b = ground arith

build_bak :
    (path : List ℕ)
    → length path < cfg_max_path_len
    → build_suffixed_path suffixed_path_len path bak_suffix ≡ some (path ++ bak_suffix)
unfolding build_suffixed_path
build_bak path b = ground arith

module _ (S : Spiffs) where
  -- What a swap leaves: on success the staged bytes stand under the path; on failure the old bytes
  -- still stand under the path or under its backup; no other file changes.
  pub record IsSwap (tmp path bak : List ℕ) (fs fs' : S.Fs) (done : Bool) : Type 0 where
    pub placed : done ≡ true → S.content fs' path ≡ S.content fs tmp
    pub kept :
        done ≡ false
        → (S.content fs' path ≡ S.content fs path) ⊎ (S.content fs' bak ≡ S.content fs path)
    pub others : (q : List ℕ) → q ≢ tmp → q ≢ path → q ≢ bak → S.content fs' q ≡ S.content fs q

  clear_other :
      (bak q : List ℕ) (fs : S.Fs)
      → bak ≢ q
      → S.content (drop_stale_backup S bak fs) q ≡ S.content fs q
  unfolding drop_stale_backup
  clear_other bak q fs h = ground (arith, S.remove_other fs bak q h)

  promote_placed :
      (tmp path bak : List ℕ) (had : Bool) (fs : S.Fs)
      → (promote_tmp S tmp path bak had fs).1 ≡ true
      → S.content (promote_tmp S tmp path bak had fs).0 path ≡ S.content fs tmp
  unfolding promote_tmp
  promote_placed tmp path bak had fs e = ground (arith, S.rename_done fs tmp path)

  promote_refused :
      (tmp path bak : List ℕ) (had : Bool) (fs : S.Fs)
      → (promote_tmp S tmp path bak had fs).1 ≡ false
      → (S.rename fs tmp path).1 ≡ false
  unfolding promote_tmp
  promote_refused tmp path bak had fs e = ground arith

  promote_kept_fresh :
      (tmp path bak : List ℕ) (fs : S.Fs)
      → tmp ≢ path
      → (promote_tmp S tmp path bak false fs).1 ≡ false
      → S.content (promote_tmp S tmp path bak false fs).0 path ≡ S.content fs path
  unfolding promote_tmp drop_tmp
  promote_kept_fresh tmp path bak fs h e =
      let refused = promote_refused tmp path bak false fs e in
      rw (refused, promote_tmp)
        (S.remove_other (S.rename fs tmp path).0 tmp path h
          ∙ S.rename_failed fs tmp path path refused)

  -- The backup went back to its path, or is still there.
  restored :
      (path bak : List ℕ) (fs : S.Fs)
      → (S.content (restore_original S bak path fs) path ≡ S.content fs bak)
        ⊎ (S.content (restore_original S bak path fs) bak ≡ S.content fs bak)
  unfolding restore_original
  restored path bak fs = elim (Bool-cases (S.rename fs bak path).1) [
    | inl e ↦ inl (S.rename_done fs bak path e)
    | inr e ↦ inr (S.rename_failed fs bak path bak e)
  ]

  promote_kept :
      (tmp path bak : List ℕ) (fs : S.Fs)
      → tmp ≢ path
      → tmp ≢ bak
      → (promote_tmp S tmp path bak true fs).1 ≡ false
      → (S.content (promote_tmp S tmp path bak true fs).0 path ≡ S.content fs bak)
        ⊎ (S.content (promote_tmp S tmp path bak true fs).0 bak ≡ S.content fs bak)
  unfolding promote_tmp drop_tmp
  promote_kept tmp path bak fs h k e =
      let refused = promote_refused tmp path bak true fs e in
      let after = (S.rename fs tmp path).0 in
      let back = restore_original S bak path after in
      let same = S.rename_failed fs tmp path bak refused in
      elim (restored path bak after) [
        | inl r ↦ inl (rw (refused, promote_tmp) (S.remove_other back tmp path h ∙ (r ∙ same)))
        | inr r ↦ inr (rw (refused, promote_tmp) (S.remove_other back tmp bak k ∙ (r ∙ same)))
      ]

  promote_other :
      (tmp path bak q : List ℕ) (had : Bool) (fs : S.Fs)
      → tmp ≢ q
      → path ≢ q
      → bak ≢ q
      → S.content (promote_tmp S tmp path bak had fs).0 q ≡ S.content fs q
  unfolding promote_tmp drop_tmp restore_original
  promote_other tmp path bak q had fs h k l =
      let moved = S.rename_other fs tmp path q h k in
      let back = S.rename_other (S.rename fs tmp path).0 bak path q l k in
      let dropped = S.remove_other (S.rename fs tmp path).0 tmp q h in
      let dropped_back = S.remove_other (S.rename (S.rename fs tmp path).0 bak path).0 tmp q h in
      ground (arith, moved, back, dropped, dropped_back)

  -- The three ways through `finalize`: nothing to keep, a failed rotation, and the rotation done.
  swap_fresh :
      (tmp path bak : List ℕ) (fs : S.Fs)
      → S.exists (drop_stale_backup S bak fs) path ≡ false
      → swap_in S tmp path bak fs ≡ promote_tmp S tmp path bak false (drop_stale_backup S bak fs)
  unfolding swap_in
  swap_fresh tmp path bak fs e = rw (e, swap_in) refl

  swap_stuck :
      (tmp path bak : List ℕ) (fs : S.Fs)
      → S.exists (drop_stale_backup S bak fs) path ≡ true
      → (S.rename (drop_stale_backup S bak fs) path bak).1 ≡ false
      → swap_in S tmp path bak fs
        ≡ (drop_tmp S tmp (S.rename (drop_stale_backup S bak fs) path bak).0, false)
  unfolding swap_in
  swap_stuck tmp path bak fs e f = rw (e, f, swap_in) refl

  swap_rotated :
      (tmp path bak : List ℕ) (fs : S.Fs)
      → S.exists (drop_stale_backup S bak fs) path ≡ true
      → (S.rename (drop_stale_backup S bak fs) path bak).1 ≡ true
      → swap_in S tmp path bak fs
        ≡ promote_tmp S tmp path bak true (S.rename (drop_stale_backup S bak fs) path bak).0
  unfolding swap_in
  swap_rotated tmp path bak fs e f = rw (e, f, swap_in) refl

  module _ (tmp path bak : List ℕ) (fs : S.Fs) (h : tmp ≢ path) (k : tmp ≢ bak)
      (l : bak ≢ path) where
    fresh-IsSwap :
        (out : S.Fs × Bool)
        → out ≡ promote_tmp S tmp path bak false (drop_stale_backup S bak fs)
        → IsSwap tmp path bak fs out.0 out.1
    fresh-IsSwap out e =
        let cleared = drop_stale_backup S bak fs in
        subst (λ r. IsSwap tmp path bak fs r.0 r.1) (sym e)
          (record {
            placed = λ d.
                promote_placed tmp path bak false cleared d
                ∙ clear_other bak tmp fs (λ x. k (sym x));
            kept =
                λ d. inl (promote_kept_fresh tmp path bak cleared h d ∙ clear_other bak path fs l);
            others = λ q a b c.
                promote_other tmp path bak q false cleared (λ x. a (sym x)) (λ x. b (sym x))
                  (λ x. c (sym x))
                ∙ clear_other bak q fs (λ x. c (sym x));
          })

    stuck-IsSwap :
        (out : S.Fs × Bool)
        → (S.rename (drop_stale_backup S bak fs) path bak).1 ≡ false
        → out ≡ (drop_tmp S tmp (S.rename (drop_stale_backup S bak fs) path bak).0, false)
        → IsSwap tmp path bak fs out.0 out.1
    unfolding drop_tmp
    stuck-IsSwap out f e =
        let cleared = drop_stale_backup S bak fs in
        let rotated = (S.rename cleared path bak).0 in
        subst (λ r. IsSwap tmp path bak fs r.0 r.1) (sym e)
          (record {
            placed = λ d. absurd (ground arith);
            kept = λ d. inl (
                S.remove_other rotated tmp path h
                ∙ (S.rename_failed cleared path bak path f ∙ clear_other bak path fs l));
            others = λ q a b c.
                S.remove_other rotated tmp q (λ x. a (sym x))
                ∙ (S.rename_failed cleared path bak q f ∙ clear_other bak q fs (λ x. c (sym x)));
          })

    rotated-IsSwap :
        (out : S.Fs × Bool)
        → (S.rename (drop_stale_backup S bak fs) path bak).1 ≡ true
        → out ≡ promote_tmp S tmp path bak true (S.rename (drop_stale_backup S bak fs) path bak).0
        → IsSwap tmp path bak fs out.0 out.1
    rotated-IsSwap out f e =
        let cleared = drop_stale_backup S bak fs in
        let rotated = (S.rename cleared path bak).0 in
        let saved = S.rename_done cleared path bak f ∙ clear_other bak path fs l in
        subst (λ r. IsSwap tmp path bak fs r.0 r.1) (sym e)
          (record {
            placed = λ d.
                promote_placed tmp path bak true rotated d
                ∙ (S.rename_other cleared path bak tmp (λ x. h (sym x)) (λ x. k (sym x))
                    ∙ clear_other bak tmp fs (λ x. k (sym x)));
            kept = λ d. elim (promote_kept tmp path bak rotated h k d) [
              | inl r ↦ inl (r ∙ saved)
              | inr r ↦ inr (r ∙ saved)
            ];
            others = λ q a b c.
                promote_other tmp path bak q true rotated (λ x. a (sym x)) (λ x. b (sym x))
                  (λ x. c (sym x))
                ∙ (S.rename_other cleared path bak q (λ x. b (sym x)) (λ x. c (sym x))
                    ∙ clear_other bak q fs (λ x. c (sym x)));
          })

    swap_in-IsSwap :
        IsSwap tmp path bak fs (swap_in S tmp path bak fs).0 (swap_in S tmp path bak fs).1
    swap_in-IsSwap =
        let out = swap_in S tmp path bak fs in
        elim (Bool-cases (S.exists (drop_stale_backup S bak fs) path)) [
          | inl e ↦ elim (Bool-cases (S.rename (drop_stale_backup S bak fs) path bak).1) [
            | inl f ↦ rotated-IsSwap out f (swap_rotated tmp path bak fs e f)
            | inr f ↦ stuck-IsSwap out f (swap_stuck tmp path bak fs e f)
          ]
          | inr e ↦ fresh-IsSwap out (swap_fresh tmp path bak fs e)
        ]

  finalize_fits :
      (path : List ℕ) (fs : S.Fs)
      → length path < cfg_max_path_len
      → finalize S path fs ≡ swap_in S (path ++ tmp_suffix) path (path ++ bak_suffix) fs
  unfolding finalize
  finalize_fits path fs b = rw (build_tmp path b, build_bak path b, finalize) refl

  -- `finalize` of a path that fits, whatever calls of the file system fail: when it returns true the
  -- file has the staged bytes; when it returns false the old bytes are still under the path or under
  -- its backup; and no file but these two and the staged one changes.
  pub finalize-IsSwap :
      (path : List ℕ) (fs : S.Fs)
      → length path < cfg_max_path_len
      → IsSwap
          (path ++ tmp_suffix)
          path
          (path ++ bak_suffix)
          fs
          (finalize S path fs).0
          (finalize S path fs).1
  finalize-IsSwap path fs b =
      subst (λ r. IsSwap (path ++ tmp_suffix) path (path ++ bak_suffix) fs r.0 r.1)
        (sym (finalize_fits path fs b))
        (swap_in-IsSwap (path ++ tmp_suffix) path (path ++ bak_suffix) fs (suffix_ne path _ _)
          (tmp_bak_ne path) (suffix_ne path _ _))
