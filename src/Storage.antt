-- ===== src/Storage.antt =====
-- src/hal/storage/storage_atomic_swap.cpp and the writing part of src/hal/storage/storage_driver.cpp:
-- a file is staged under `<path>.tmp`, whole or in chunks, and swapped in with the old one kept under
-- `<path>.bak`. The file system is an argument, Storage/FileSystem. A path is its characters.
pub mod FileSystem
pub mod Swap
pub mod Chunks
use canshift_firmware.Prelude.{
  ℕ, zero, suc, ◌+◌, Bool, true, false, not, ◌&&◌, ◌||◌, Option, none, some, List, [], ◌∷◌, ◌++◌,
  if◌then◌else◌, ltb, leb, ◌==◌, ◌!=◌, length, take,
}
use canshift_firmware.Storage.FileSystem.{Spiffs}

-- `kSuffixedPathLen`: 64 characters, the suffix and the terminator.
abbrev pub suffixed_path_len : ℕ
suffixed_path_len = 69

abbrev pub cfg_max_path_len : ℕ
cfg_max_path_len = 64

abbrev pub tmp_suffix : List ℕ
tmp_suffix = 46 ∷ 116 ∷ 109 ∷ 112 ∷ []

abbrev pub bak_suffix : List ℕ
bak_suffix = 46 ∷ 98 ∷ 97 ∷ 107 ∷ []

unfoldable pub build_suffixed_path : ℕ → List ℕ → List ℕ → Option (List ℕ)
build_suffixed_path out_len base suffix =
    if out_len == 0
    then none
    else if ltb out_len (length base + length suffix + 1)
    then none
    else some (base ++ suffix)

module _ (S : Spiffs) where
  unfoldable pub drop_tmp : List ℕ → S.Fs → S.Fs
  drop_tmp tmp fs = (S.remove fs tmp).0

  unfoldable pub drop_stale_backup : List ℕ → S.Fs → S.Fs
  drop_stale_backup bak fs = if S.exists fs bak then (S.remove fs bak).0 else fs

  unfoldable pub restore_original : List ℕ → List ℕ → S.Fs → S.Fs
  restore_original bak path fs = (S.rename fs bak path).0

  unfoldable pub promote_tmp : List ℕ → List ℕ → List ℕ → Bool → S.Fs → S.Fs × Bool
  unfolding drop_tmp restore_original
  promote_tmp tmp path bak had_original fs =
      let (fs', promoted) = S.rename fs tmp path in
      if promoted
      then (fs', true)
      else if had_original
      then (drop_tmp tmp (restore_original bak path fs'), false)
      else (drop_tmp tmp fs', false)

  -- `finalize` past the two suffixed paths.
  unfoldable pub swap_in : List ℕ → List ℕ → List ℕ → S.Fs → S.Fs × Bool
  unfolding drop_stale_backup promote_tmp
  swap_in tmp path bak fs =
      let cleared = drop_stale_backup bak fs in
      let had_original = S.exists cleared path in
      let (rotated, moved) = S.rename cleared path bak in
      if had_original
      then (if moved then promote_tmp tmp path bak true rotated else (drop_tmp tmp rotated, false))
      else promote_tmp tmp path bak false cleared

  unfoldable pub finalize : List ℕ → S.Fs → S.Fs × Bool
  unfolding build_suffixed_path swap_in
  finalize path fs = elim (build_suffixed_path suffixed_path_len path tmp_suffix) [
    | none ↦ (fs, false)
    | some tmp ↦ elim (build_suffixed_path suffixed_path_len path bak_suffix) [
      | none ↦ (fs, false)
      | some bak ↦ swap_in tmp path bak fs
    ]
  ]

  unfoldable pub sweep_orphan_tmp : List ℕ → S.Fs → S.Fs
  unfolding build_suffixed_path
  sweep_orphan_tmp path fs = elim (build_suffixed_path suffixed_path_len path tmp_suffix) [
    | none ↦ fs
    | some tmp ↦ if S.exists fs tmp then (S.remove fs tmp).0 else fs
  ]

  unfoldable pub remove_if_present : List ℕ → S.Fs → S.Fs
  remove_if_present tmp fs = if S.exists fs tmp then (S.remove fs tmp).0 else fs

  unfoldable pub store_staged : List ℕ → List ℕ → List ℕ → S.Fs → S.Fs × Bool
  unfolding finalize
  store_staged path tmp bytes opened =
      let (fs, written) = S.append opened tmp bytes in
      if written != length bytes then ((S.remove fs tmp).0, false) else finalize path fs

  unfoldable pub write_file_atomic : List ℕ → List ℕ → S.Fs → S.Fs × Bool
  unfolding build_suffixed_path remove_if_present store_staged
  write_file_atomic path bytes fs = elim (build_suffixed_path suffixed_path_len path tmp_suffix) [
    | none ↦ (fs, false)
    | some tmp ↦
        let cleared = remove_if_present tmp fs in
        elim (S.open_write cleared tmp) [
          | none ↦ (cleared, false)
          | some opened ↦ store_staged path tmp bytes opened
        ]
  ]

  unfoldable pub ensure_dir : List ℕ → S.Fs → S.Fs × Bool
  ensure_dir dir fs = if S.exists fs dir then (fs, true) else S.mkdir fs dir

  -- The loop of `ensureParentDirs`: what stands before the cursor's next character, and the rest.
  unfoldable pub ensure_dirs_from : List ℕ → List ℕ → S.Fs → S.Fs × Bool
  unfolding ensure_dir
  ensure_dirs_from before [] fs = (fs, true)
  ensure_dirs_from before (c ∷ rest) fs =
      let (fs', present) = ensure_dir before fs in
      let after = ensure_dirs_from (before ++ c ∷ []) rest fs' in
      let on = ensure_dirs_from (before ++ c ∷ []) rest fs in
      if c == 47 then (if present then after else (fs', false)) else on

  -- The copy of the path in `buf` has 127 characters at most.
  unfoldable pub ensure_parent_dirs : List ℕ → S.Fs → S.Fs × Bool
  unfolding ensure_dirs_from
  ensure_parent_dirs [] fs = (fs, false)
  ensure_parent_dirs (c ∷ rest) fs =
      if c == 47 then ensure_dirs_from (c ∷ []) (take 126 rest) fs else (fs, false)
