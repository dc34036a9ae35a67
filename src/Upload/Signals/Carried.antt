-- ===== src/Upload/Signals/Carried.antt =====
-- The bytes that an accepted upload of the signals file leaves staged, src/config/config_signals_file.inc.
use canshift_firmware.Prelude.{
  ℕ, ◌<◌, ◌≡◌, inl, inr, ap, ◌∙◌, sym, Bool, true, false, Option, none, some, List, [], ◌∷◌, ◌++◌,
  ◌!=◌, length, Bool-cases, Option-cases, arith, take_all,
}
use canshift_firmware.Storage.FileSystem.{Spiffs}
use canshift_firmware.Storage.{
  cfg_max_path_len, tmp_suffix, remove_if_present, store_staged, write_file_atomic,
}
use canshift_firmware.Storage.Swap.{build_tmp, finalize-IsSwap}
use canshift_firmware.Upload.{signals_path}
use canshift_firmware.Upload.Signals.{
  Json, inspects_clean, read_current_out, write_document, merge_current_out, keep_current_out,
  accept_signals_upload,
}

module _ (json : Json) where
  -- The bytes that an upload leaves, for the `out` block of the current file: its own, unless it has no
  -- `out` block and there is one to carry over.
  abbrev pub carried : Option json.Out → List ℕ → Option (List ℕ)
  carried none received = some received
  carried (some out) received = elim (json.parse 2 received) [
    | none ↦ none
    | some doc ↦ elim (json.out doc) [
      | some own ↦ some received
      | none ↦ elim (json.set_out doc out) [ none ↦ none | some merged ↦ json.print merged ]
    ]
  ]

  -- The `out` block of a file with these contents, as far as the heap allows to keep it.
  abbrev pub current_out : Option (List ℕ) → Option json.Out
  current_out none = none
  current_out (some bytes) = elim (json.parse 1 bytes) [
    | none ↦ none
    | some current ↦ elim (json.out current) [ none ↦ none | some out ↦ json.copy_out out ]
  ]

  -- The bytes are a signals file that the loader takes whole.
  abbrev pub is_clean : List ℕ → Bool
  is_clean bytes = elim (json.parse 0 bytes) [ none ↦ false | some doc ↦ json.clean doc ]

  module _ (S : Spiffs) where
    store_placed :
        (path bytes : List ℕ) (opened : S.Fs)
        → length path < cfg_max_path_len
        → S.content opened (path ++ tmp_suffix) ≡ some []
        → (store_staged S path (path ++ tmp_suffix) bytes opened).1 ≡ true
        → S.content (store_staged S path (path ++ tmp_suffix) bytes opened).0 path ≡ some bytes
    unfolding store_staged
    store_placed path bytes opened b empty e =
        let tmp = path ++ tmp_suffix in
        let out = S.append opened tmp bytes in
        elim (Bool-cases (out.1 != length bytes)) [
          | inl short ↦ absurd (ground arith)
          | inr all ↦
              rw (all, store_staged)
                ((finalize-IsSwap S path out.0 b).placed (rw (all, store_staged) at e)
                  ∙ (S.append_taken opened tmp bytes [] empty
                      ∙ ap some (take_all out.1 bytes (ground arith))))
        ]

    -- A whole file that was written stands under its path.
    write_file_atomic-placed :
        (path bytes : List ℕ) (fs : S.Fs)
        → length path < cfg_max_path_len
        → (write_file_atomic S path bytes fs).1 ≡ true
        → S.content (write_file_atomic S path bytes fs).0 path ≡ some bytes
    unfolding write_file_atomic
    write_file_atomic-placed path bytes fs b e =
        let tmp = path ++ tmp_suffix in
        let cleared = remove_if_present S tmp fs in
        elim (Option-cases (S.open_write cleared tmp)) [
          | inl n ↦ absurd (ground (arith, build_tmp path b))
          | inr (opened, k) ↦
              rw (build_tmp path b, write_file_atomic)
                (rw k (
                  store_placed path bytes opened b (S.open_empty cleared opened tmp k)
                    (rw k at (rw (build_tmp path b, write_file_atomic) at e))))
        ]

    write_document-placed :
        (path : List ℕ) (doc : json.Doc) (fs : S.Fs)
        → length path < cfg_max_path_len
        → (write_document json S path doc fs).1 ≡ true
        → S.content (write_document json S path doc fs).0 path ≡ json.print doc
    unfolding write_document
    write_document-placed path doc fs b e = elim (Option-cases (json.print doc)) [
      | inl n ↦ absurd (ground arith)
      | inr (bytes, k) ↦
          rw (k, write_document)
            (write_file_atomic-placed path bytes fs b (rw (k, write_document) at e))
    ]

    merge-carries :
        (path received : List ℕ) (out : json.Out) (fs : S.Fs)
        → length path < cfg_max_path_len
        → S.content fs path ≡ some received
        → (merge_current_out json S path out fs).1 ≡ true
        → S.content (merge_current_out json S path out fs).0 path ≡ carried (some out) received
    unfolding merge_current_out
    merge-carries path received out fs b k e = elim (Option-cases (json.parse 2 received)) [
      | inl n ↦ absurd (ground arith)
      | inr (doc, p) ↦ elim (Option-cases (json.out doc)) [
        | inr (own, o) ↦
            let same : carried (some out) received ≡ some received = ground (arith, p, o) in
            rw (k, merge_current_out) (rw p (rw o (k ∙ sym same)))
        | inl o ↦ elim (Option-cases (json.set_out doc out)) [
          | inl n ↦ absurd (ground arith)
          | inr (merged, m) ↦
              let same : carried (some out) received ≡ json.print merged =
                ground (arith, p, o, m) in
              rw (k, merge_current_out)
                (rw p (
                  rw o (
                    rw m (
                      write_document-placed path merged fs b
                        (rw m at (rw o at (rw p at (rw (k, merge_current_out) at e))))
                      ∙ sym same))))
        ]
      ]
    ]

    keep-carries :
        (path received : List ℕ) (fs : S.Fs)
        → length path < cfg_max_path_len
        → S.content fs path ≡ some received
        → (keep_current_out json S path fs).1 ≡ true
        → S.content (keep_current_out json S path fs).0 path
          ≡ carried (read_current_out json S fs) received
    unfolding keep_current_out
    keep-carries path received fs b k e = elim (Option-cases (read_current_out json S fs)) [
      | inl n ↦ rw (n, keep_current_out) k
      | inr (out, o) ↦
          rw (o, keep_current_out)
            (merge-carries path received out fs b k (rw (o, keep_current_out) at e))
    ]

    inspects_clean_lem :
        (path received : List ℕ) (fs : S.Fs)
        → S.content fs path ≡ some received
        → inspects_clean json S path fs ≡ true
        → is_clean received ≡ true
    unfolding inspects_clean
    inspects_clean_lem [] received fs k e = absurd (ground arith)
    inspects_clean_lem (c ∷ path) received fs k e = elim (Bool-cases (S.exists fs (c ∷ path))) [
      | inr n ↦ absurd (ground arith)
      | inl y ↦ ground (arith, k)
    ]

    -- A staged upload that is accepted is clean, and carries the current file's `out` block.
    pub accept-carries :
        (path received : List ℕ) (fs : S.Fs)
        → length path < cfg_max_path_len
        → S.content fs path ≡ some received
        → (accept_signals_upload json S fs path).1 ≡ true
        → (is_clean received ≡ true)
          × (S.content (accept_signals_upload json S fs path).0 path
              ≡ carried (read_current_out json S fs) received)
    unfolding accept_signals_upload
    accept-carries path received fs b k e = elim (Bool-cases (inspects_clean json S path fs)) [
      | inr n ↦ absurd (ground arith)
      | inl c ↦ (
        inspects_clean_lem path received fs k c,
        rw (c, accept_signals_upload)
            (keep-carries path received fs b k (rw (c, accept_signals_upload) at e)),
      )
    ]

    -- What exists is found, so that only the contents of the current file count.
    pub read_current_out_lem :
        (fs : S.Fs)
        → ((p bytes : List ℕ) → S.content fs p ≡ some bytes → S.exists fs p ≡ true)
        → read_current_out json S fs ≡ current_out (S.content fs signals_path)
    unfolding read_current_out
    read_current_out_lem fs finds = elim (Option-cases (S.content fs signals_path)) [
      | inl n ↦ ground (arith, n)
      | inr (bytes, k) ↦ ground (arith, k, finds signals_path bytes k)
    ]
