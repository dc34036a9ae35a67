-- ===== src/Storage/Chunks/Stream.antt =====
-- The chunked write of src/hal/storage/storage_driver.cpp on the contents of the staged file.
use canshift_firmware.Prelude.{
  ℕ, ◌<◌, ◌≡◌, ◌≢◌, inl, inr, refl, ap, ◌∙◌, sym, subst, Bool, true, false, not, some, List, [],
  ◌++◌, if◌then◌else◌, ltb, ◌==◌, length, take, Bool-cases, Option-cases, arith, take_all, lt→ltb,
  ltb→lt,
}
use canshift_firmware.Storage.FileSystem.{Spiffs}
use canshift_firmware.Storage.{
  suffixed_path_len, cfg_max_path_len, tmp_suffix, bak_suffix, build_suffixed_path,
  remove_if_present, ensure_parent_dirs, finalize,
}
use canshift_firmware.Storage.Chunks.{
  Storage, StagedFileCheck, committed, failed, abort_chunked_write, open_staged,
  begin_chunked_write_atomic, append_chunk, end_chunked_write, end_chunked_write_checked,
  commit_staged_chunk, is_committed,
}
use canshift_firmware.Storage.Swap.{build_tmp, finalize-IsSwap}

guards_true :
    {A : Type 0} (a p : Bool) (x y : A) (r : A × Bool)
    → (if not a then (x, false) else if not p then (y, false) else r).1 ≡ true
    → (a ≡ true) × (p ≡ true)
guards_true true true x y r e = (refl, refl)
guards_true true false x y r e = absurd (ground arith)
guards_true false p x y r e = absurd (ground arith)

all_taken : (bytes : List ℕ) (n : ℕ) → (n == length bytes) ≡ true → take n bytes ≡ bytes
all_taken bytes n e = take_all n bytes (ground arith)

is_committed_if : (b : Bool) → is_committed (if b then committed else failed) ≡ b
is_committed_if true = refl
is_committed_if false = refl

module _ {S : Spiffs} where
  -- The stream is open for the path, and its staged file holds the bytes.
  pub record IsStream (path bytes : List ℕ) (s : Storage S) : Type 0 where
    pub chunk_open : s.chunk_open ≡ true
    pub atomic : s.atomic ≡ true
    pub atomic_path : s.atomic_path ≡ path
    pub file : s.file ≡ path ++ tmp_suffix
    pub actual : s.actual_path ≡ path ++ tmp_suffix
    pub staged : S.content s.fs s.file ≡ some bytes

  open_staged-IsStream :
      (path : List ℕ) (s : Storage S)
      → (open_staged path (path ++ tmp_suffix) s).1 ≡ true
      → IsStream path [] (open_staged path (path ++ tmp_suffix) s).0
  unfolding open_staged
  open_staged-IsStream path s e =
      elim (Option-cases
        (S.open_write (remove_if_present S (path ++ tmp_suffix) s.fs) (path ++ tmp_suffix))) [
          | inl n ↦ absurd (ground arith)
          | inr f ↦ ground (
            arith,
            S.open_empty (remove_if_present S (path ++ tmp_suffix) s.fs) f.0 (path ++ tmp_suffix)
                f.1,
          )
        ]

  abbrev idle_of : Storage S → Storage S
  idle_of s = if s.chunk_open then abort_chunked_write s else s

  abbrev ready_of : List ℕ → Storage S → Storage S
  ready_of path s =
      let idle = idle_of s in record idle { fs = (ensure_parent_dirs S path idle.fs).0 }

  begin_opens :
      (path : List ℕ) (s : Storage S)
      → length path < cfg_max_path_len
      → (ensure_parent_dirs S path (idle_of s).fs).1 ≡ true
      → begin_chunked_write_atomic path s ≡ open_staged path (path ++ tmp_suffix) (ready_of path s)
  unfolding begin_chunked_write_atomic
  begin_opens path s b p =
      rw (lt→ltb (length path) cfg_max_path_len b, p, build_tmp path b, begin_chunked_write_atomic)
        refl

  begin_fits :
      (path : List ℕ) (s : Storage S)
      → (begin_chunked_write_atomic path s).1 ≡ true
      → (ltb (length path) cfg_max_path_len ≡ true)
        × ((ensure_parent_dirs S path (idle_of s).fs).1 ≡ true)
  unfolding begin_chunked_write_atomic
  begin_fits path s e =
      guards_true (ltb (length path) cfg_max_path_len) (ensure_parent_dirs S path (idle_of s).fs).1
        (idle_of s) (ready_of path s) _ e

  pub begin-IsStream :
      (path : List ℕ) (s : Storage S)
      → (begin_chunked_write_atomic path s).1 ≡ true
      → (length path < cfg_max_path_len) × IsStream path [] (begin_chunked_write_atomic path s).0
  begin-IsStream path s e =
      let passed = begin_fits path s e in
      let b = ltb→lt (length path) cfg_max_path_len passed.0 in
      let eq = begin_opens path s b passed.1 in
      (
        b,
        subst (λ r. IsStream path [] r.0) (sym eq)
            (open_staged-IsStream path (ready_of path s) (sym (ap (λ r. r.1) eq) ∙ e)),
      )

  pub append-IsStream :
      (path old bytes : List ℕ) (s : Storage S)
      → IsStream path old s
      → (append_chunk bytes s).1 ≡ true
      → IsStream path (old ++ bytes) (append_chunk bytes s).0
  unfolding append_chunk
  append-IsStream path old bytes s v e =
      let all = all_taken bytes (S.append s.fs s.file bytes).1 in
      let stored = S.append_taken s.fs s.file bytes old v.staged in
      ground (arith, all, stored, v.chunk_open, v.atomic, v.atomic_path, v.file, v.actual)

  end_fs :
      (s : Storage S)
      → s.chunk_open ≡ true
      → s.atomic ≡ true
      → (end_chunked_write s).0.fs ≡ (finalize S s.atomic_path s.fs).0
  unfolding end_chunked_write finalize
  end_fs s o a = rw (o, a, end_chunked_write) refl

  end_done :
      (s : Storage S)
      → s.chunk_open ≡ true
      → s.atomic ≡ true
      → (end_chunked_write s).1 ≡ (finalize S s.atomic_path s.fs).1
  unfolding end_chunked_write finalize
  end_done s o a = rw (o, a, end_chunked_write) (is_committed_if (finalize S s.atomic_path s.fs).1)

  -- What a successful end of the stream leaves.
  pub end_placed :
      (path bytes : List ℕ) (s : Storage S)
      → length path < cfg_max_path_len
      → IsStream path bytes s
      → (end_chunked_write s).1 ≡ true
      → S.content (end_chunked_write s).0.fs path ≡ some bytes
  end_placed path bytes s b v e =
      let swap = finalize-IsSwap S path s.fs b in
      let same = ap (λ p. finalize S p s.fs) v.atomic_path in
      let done = sym (end_done s v.chunk_open v.atomic ∙ ap (λ r. r.1) same) ∙ e in
      ap (λ fs. S.content fs path) (end_fs s v.chunk_open v.atomic ∙ ap (λ r. r.0) same)
      ∙ (swap.placed done ∙ (ap (S.content s.fs) (sym v.file) ∙ v.staged))

  -- The same with a test of the staged file, which must have passed: the file is what the test left staged.
  pub end_checked_placed :
      (check : StagedFileCheck S) (path bytes : List ℕ) (s : Storage S)
      → length path < cfg_max_path_len
      → IsStream path bytes s
      → is_committed (end_chunked_write_checked check s).1 ≡ true
      → let out = check s.fs (path ++ tmp_suffix) in
        (out.1 ≡ true)
        × (S.content (end_chunked_write_checked check s).0.fs path
            ≡ S.content out.0 (path ++ tmp_suffix))
  unfolding end_chunked_write_checked
  end_checked_placed check path bytes s b v e =
      let at_staged = ap (check s.fs) v.actual in
      elim (Bool-cases (check s.fs s.actual_path).1) [
        | inr bad ↦ absurd (ground (arith, v.chunk_open, v.atomic))
        | inl good ↦
            let checked = (check s.fs s.actual_path).0 in
            let swap = finalize-IsSwap S path checked b in
            let done : (finalize S s.atomic_path checked).1 ≡ true =
              sym (is_committed_if (finalize S s.atomic_path checked).1)
              ∙ ground (arith, v.chunk_open, v.atomic) in
            let same = ap (λ p. finalize S p checked) v.atomic_path in
            (
              sym (ap (λ r. r.1) at_staged) ∙ good,
              rw (v.chunk_open, v.atomic, good, end_chunked_write_checked, commit_staged_chunk)
                  (ap (λ r. S.content r.0 path) same
                    ∙ (swap.placed (sym (ap (λ r. r.1) same) ∙ done)
                        ∙ ap (λ r. S.content r.0 (path ++ tmp_suffix)) at_staged)),
            )
      ]

  pub abort_closed : (s : Storage S) → (abort_chunked_write s).chunk_open ≡ false
  unfolding abort_chunked_write
  abort_closed s = ground arith

  open_staged_closed :
      (path tmp : List ℕ) (s : Storage S)
      → (open_staged path tmp s).1 ≡ false
      → (open_staged path tmp s).0.chunk_open ≡ s.chunk_open
  unfolding open_staged
  open_staged_closed path tmp s e = ground arith

  pub begin_closed :
      (path : List ℕ) (s : Storage S)
      → s.chunk_open ≡ false
      → (begin_chunked_write_atomic path s).1 ≡ false
      → (begin_chunked_write_atomic path s).0.chunk_open ≡ false
  unfolding begin_chunked_write_atomic
  begin_closed path s o e =
      elim (Option-cases (build_suffixed_path suffixed_path_len path tmp_suffix)) [
        | inl n ↦ ground arith
        | inr (tmp, k) ↦ ground (arith, open_staged_closed path tmp (ready_of path s))
      ]

  pub end_closed :
      (check : StagedFileCheck S) (s : Storage S)
      → (end_chunked_write_checked check s).0.chunk_open ≡ false
  unfolding end_chunked_write_checked
  end_closed check s = ground arith

  pub end_plain_closed : (s : Storage S) → (end_chunked_write s).0.chunk_open ≡ false
  unfolding end_chunked_write
  end_plain_closed s = end_closed (λ fs path. (fs, true)) s

  pub append_chunk_other :
      (bytes q : List ℕ) (s : Storage S)
      → s.file ≢ q
      → S.content (append_chunk bytes s).0.fs q ≡ S.content s.fs q
  unfolding append_chunk
  append_chunk_other bytes q s h = ground (arith, S.append_other s.fs s.file q bytes h)

  -- The end of the stream changes no file but the three of its path.
  pub end_other :
      (path bytes q : List ℕ) (s : Storage S)
      → length path < cfg_max_path_len
      → IsStream path bytes s
      → q ≢ path ++ tmp_suffix
      → q ≢ path
      → q ≢ path ++ bak_suffix
      → S.content (end_chunked_write s).0.fs q ≡ S.content s.fs q
  end_other path bytes q s b v h k l =
      ap (λ fs. S.content fs q)
        (end_fs s v.chunk_open v.atomic ∙ ap (λ p. (finalize S p s.fs).0) v.atomic_path)
      ∙ (finalize-IsSwap S path s.fs b).others q h k l
