-- ===== src/Storage/Chunks.antt =====
-- The chunked write of src/hal/storage/storage_driver.cpp: one stream, in file-scope variables, that
-- every transfer of the device shares.
pub mod Begin
pub mod Stream
use canshift_firmware.Prelude.{
  ℕ, zero, suc, ◌+◌, Bool, true, false, not, ◌&&◌, ◌||◌, Option, none, some, List, [], ◌∷◌, ◌++◌,
  if◌then◌else◌, ltb, leb, ◌==◌, ◌!=◌, length, take,
}
use canshift_firmware.Storage.FileSystem.{Spiffs}
use canshift_firmware.Storage.{
  suffixed_path_len, cfg_max_path_len, tmp_suffix, build_suffixed_path, finalize, remove_if_present,
  ensure_parent_dirs,
}

-- The statics of the chunked write; `file` is the path behind `s_chunkFile`.
pub record Storage (S : Spiffs) : Type 0 where
  pub fs : S.Fs
  pub file : List ℕ
  pub chunk_open : Bool
  pub atomic : Bool
  pub atomic_path : List ℕ
  pub actual_path : List ℕ

-- A test of the staged file, which may write files.
abbrev pub StagedFileCheck : Spiffs → Type 0
StagedFileCheck S = S.Fs → List ℕ → S.Fs × Bool

pub data ChunkCommit : Type 0 where
  committed rejected failed : ChunkCommit

abbrev pub nonempty : List ℕ → Bool
nonempty [] = false
nonempty (c ∷ cs) = true

abbrev pub is_committed : ChunkCommit → Bool
is_committed committed = true
is_committed _ = false

module _ {S : Spiffs} where
  unfoldable pub reset_chunk_paths : Storage S → Storage S
  reset_chunk_paths s = record s { atomic = false; atomic_path = []; actual_path = [] }

  unfoldable pub abort_chunked_write : Storage S → Storage S
  unfolding reset_chunk_paths
  abort_chunked_write s =
      let closed = if s.chunk_open then record s { chunk_open = false } else s in
      reset_chunk_paths (
        if s.atomic && nonempty s.actual_path
        then record closed { fs = (S.remove closed.fs s.actual_path).0 }
        else closed)

  -- `beginChunkedWriteAtomic` from the opening of the staged file on.
  unfoldable pub open_staged : List ℕ → List ℕ → Storage S → Storage S × Bool
  unfolding remove_if_present
  open_staged path tmp s =
      let cleared = remove_if_present S tmp s.fs in
      elim (S.open_write cleared tmp) [
        | none ↦ (record s { fs = cleared }, false)
        | some opened ↦ (
          record s {
            fs = opened;
            file = tmp;
            chunk_open = true;
            atomic = true;
            atomic_path = path;
            actual_path = tmp;
          },
          true,
        )
      ]

  unfoldable pub begin_chunked_write_atomic : List ℕ → Storage S → Storage S × Bool
  begin_chunked_write_atomic path s =
      let idle = if s.chunk_open then abort_chunked_write s else s in
      let (fs, present) = ensure_parent_dirs S path idle.fs in
      let ready = record idle { fs = fs } in
      if not (ltb (length path) cfg_max_path_len)
      then (idle, false)
      else if not present
      then (ready, false)
      else elim (build_suffixed_path suffixed_path_len path tmp_suffix) [
        | none ↦ (ready, false)
        | some tmp ↦ open_staged path tmp ready
      ]

  unfoldable pub append_chunk : List ℕ → Storage S → Storage S × Bool
  append_chunk bytes s =
      let (fs, written) = S.append s.fs s.file bytes in
      if s.chunk_open then (record s { fs = fs }, written == length bytes) else (s, false)

  -- `check` is the staged file's test, always passed when there is none.
  unfoldable pub commit_staged_chunk : StagedFileCheck S → Storage S → Storage S × ChunkCommit
  commit_staged_chunk check s =
      let (checked, passed) = check s.fs s.actual_path in
      let (fs, swapped) = finalize S s.atomic_path checked in
      if not passed
      then (record s { fs = (S.remove checked s.actual_path).0 }, rejected)
      else (record s { fs = fs }, if swapped then committed else failed)

  unfoldable pub end_chunked_write_checked : StagedFileCheck S → Storage S → Storage S × ChunkCommit
  unfolding commit_staged_chunk reset_chunk_paths
  end_chunked_write_checked check s =
      let closed = record s { chunk_open = false } in
      let (staged, result) = commit_staged_chunk check closed in
      if not s.chunk_open
      then (s, committed)
      else if s.atomic
      then (reset_chunk_paths staged, result)
      else (reset_chunk_paths closed, committed)

  unfoldable pub end_chunked_write : Storage S → Storage S × Bool
  unfolding end_chunked_write_checked
  end_chunked_write s =
      let (s', result) = end_chunked_write_checked (λ fs path. (fs, true)) s in
      (s', is_committed result)
