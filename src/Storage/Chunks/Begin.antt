-- ===== src/Storage/Chunks/Begin.antt =====
-- The begin of a chunked write of src/hal/storage/storage_driver.cpp on the contents of the other files.
use canshift_firmware.Prelude.{
  ℕ, ◌≡◌, ◌≢◌, inl, inr, refl, ◌∙◌, false, List, [], ◌∷◌, ◌++◌, take, arith, Option-cases,
}
use canshift_firmware.Storage.FileSystem.{Spiffs}
use canshift_firmware.Storage.{
  tmp_suffix, build_suffixed_path, remove_if_present, ensure_dir, ensure_dirs_from,
  ensure_parent_dirs,
}
use canshift_firmware.Storage.Chunks.{
  Storage, abort_chunked_write, open_staged, begin_chunked_write_atomic,
}

module _ (S : Spiffs) where
  ensure_dir_other :
      (dir q : List ℕ) (fs : S.Fs) → S.content (ensure_dir S dir fs).0 q ≡ S.content fs q
  unfolding ensure_dir
  ensure_dir_other dir q fs = ground (arith, S.mkdir_content fs dir q)

  ensure_dirs_other :
      (before rest q : List ℕ) (fs : S.Fs)
      → S.content (ensure_dirs_from S before rest fs).0 q ≡ S.content fs q
  unfolding ensure_dirs_from
  ensure_dirs_other before [] q fs = refl
  ensure_dirs_other before (c ∷ rest) q fs = ground (
    arith,
    ensure_dir_other before q fs,
    ensure_dirs_other (before ++ c ∷ []) rest q fs,
    ensure_dirs_other (before ++ c ∷ []) rest q (ensure_dir S before fs).0,
  )

  ensure_parents_other :
      (path q : List ℕ) (fs : S.Fs) → S.content (ensure_parent_dirs S path fs).0 q ≡ S.content fs q
  unfolding ensure_parent_dirs
  ensure_parents_other [] q fs = refl
  ensure_parents_other (c ∷ rest) q fs =
      ground (arith, ensure_dirs_other (c ∷ []) (take 126 rest) q fs)

  cleared_other :
      (tmp q : List ℕ) (fs : S.Fs)
      → tmp ≢ q
      → S.content (remove_if_present S tmp fs) q ≡ S.content fs q
  unfolding remove_if_present
  cleared_other tmp q fs h = ground (arith, S.remove_other fs tmp q h)

module _ {S : Spiffs} where
  open_staged_other :
      (path tmp q : List ℕ) (s : Storage S)
      → tmp ≢ q
      → S.content (open_staged path tmp s).0.fs q ≡ S.content s.fs q
  unfolding open_staged
  open_staged_other path tmp q s h =
      let cleared = remove_if_present S tmp s.fs in
      elim (Option-cases (S.open_write cleared tmp)) [
        | inl n ↦ rw (n, open_staged) (cleared_other S tmp q s.fs h)
        | inr (opened, k) ↦
            rw (k, open_staged)
              (S.open_other cleared opened tmp q k h ∙ cleared_other S tmp q s.fs h)
      ]

  pub abort_other :
      (q : List ℕ) (s : Storage S)
      → s.actual_path ≢ q
      → S.content (abort_chunked_write s).fs q ≡ S.content s.fs q
  unfolding abort_chunked_write
  abort_other q s h = ground (arith, S.remove_other s.fs s.actual_path q h)

  -- A closed stream's begin changes no file but the staged one.
  pub begin_other :
      (path q : List ℕ) (s : Storage S)
      → s.chunk_open ≡ false
      → path ++ tmp_suffix ≢ q
      → S.content (begin_chunked_write_atomic path s).0.fs q ≡ S.content s.fs q
  unfolding begin_chunked_write_atomic build_suffixed_path
  begin_other path q s o h =
      let fs = (ensure_parent_dirs S path s.fs).0 in
      ground (
        arith,
        ensure_parents_other S path q s.fs,
        open_staged_other path (path ++ tmp_suffix) q (record s { fs = fs }) h,
      )
