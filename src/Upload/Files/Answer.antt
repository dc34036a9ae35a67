-- ===== src/Upload/Files/Answer.antt =====
-- What one PUT_FILE chunk leaves, src/hal/usb/usb_dispatch_files.cpp.
use canshift_firmware.Prelude.{
  ℕ, ◌+◌, ◌≤◌, ◌≡◌, ◌≢◌, inl, inr, refl, ◌∙◌, sym, Bool, true, false, some, List, [], ◌++◌, ◌==◌,
  length, arith, Bool-cases, Option-cases, ==_iff, ne→==,
}
use canshift_firmware.Storage.FileSystem.{Spiffs}
use canshift_firmware.Upload.{
  Device, Context, Decode, Effect, Failure, out_of_sequence, file_max_bytes, str_eq, signals_path,
}
use canshift_firmware.Storage.{tmp_suffix}
use canshift_firmware.Storage.Chunks.{StagedFileCheck}
use canshift_firmware.Upload.Files.{
  fail_chunk, begin_put_file, continues_put_file, append_put_file_chunk, file_chunk_stored,
  store_file_chunk, accept_file_chunk,
}
use canshift_firmware.Upload.Files.Transfer.{
  bytes_of, succeeds, IsFile, begin-IsFile, begin_put_file_closed, abort_transfer_closed,
  append-IsFile, finish-placed, finish_closed, tmp_not_signals, append_file_other, begin_file_other,
  staged_bytes,
}

-- The path of the last chunk of index 0, and the bytes of the chunks since.
pub record Told : Type 0 where
  pub path : List ℕ
  pub received : List ℕ

module _ {S : Spiffs} (decode : Decode) (cap : ℕ) (accept : StagedFileCheck S) where
  -- An open stream belongs to the file that was told, and has stored what was told.
  abbrev pub Follows : Told → Device S → Type 0
  Follows told d = d.storage.chunk_open ≡ true → IsFile told.path told.received d

  -- No open stream stages the signals file's own path.
  abbrev pub SparesSignals : Device S → Type 0
  SparesSignals d = d.storage.chunk_open ≡ true → d.storage.actual_path ≢ signals_path

  -- The files from which a test of the staged signals file started: the staged one has the bytes told, and
  -- the signals file is as before. The test accepted, and what it left staged was installed.
  pub record IsAccepted (told : Told) (before : Device S) (fs' staged : S.Fs) : Type 0 where
    pub staged_bytes : S.content staged (told.path ++ tmp_suffix) ≡ some told.received
    pub current :
        SparesSignals before
        → S.content staged signals_path ≡ S.content before.storage.fs signals_path
    pub accepted : (accept staged (told.path ++ tmp_suffix)).1 ≡ true
    pub placed :
        S.content fs' told.path
        ≡ S.content (accept staged (told.path ++ tmp_suffix)).0 (told.path ++ tmp_suffix)

  -- What a handler leaves: the stream as told, and, when the last chunk succeeds, the file.
  pub record Answers (told : Told) (last : Bool) (before : Device S) (out : Device S × List Effect)
      : Type 0 where
    pub going : Follows told out.0
    pub small : last ≡ true → succeeds out.1 ≡ true → length told.received ≤ file_max_bytes
    pub plain :
        last ≡ true
        → succeeds out.1 ≡ true
        → str_eq told.path signals_path ≡ false
        → S.content out.0.storage.fs told.path ≡ some told.received
    pub signals :
        last ≡ true
        → succeeds out.1 ≡ true
        → str_eq told.path signals_path ≡ true
        → (staged : S.Fs) × IsAccepted told before out.0.storage.fs staged

  pub fail-Answers :
      (reason : Failure) (told : Told) (last : Bool) (before d : Device S)
      → Answers told last before (fail_chunk reason d)
  unfolding fail_chunk
  fail-Answers reason told last before d = record {
    going = λ o. absurd (ground (arith, abort_transfer_closed d));
    small = λ l e. absurd (ground arith);
    plain = λ l e. absurd (ground arith);
    signals = λ l e. absurd (ground arith);
  }

  -- The signals file is as it was, of a device that spares it.
  abbrev Current : Device S → Device S → Type 0
  Current before d =
      SparesSignals before
      → S.content d.storage.fs signals_path ≡ S.content before.storage.fs signals_path

  stored-Answers :
      (ctx : Context) (idx total : ℕ) (path received : List ℕ) (before d : Device S)
      → IsFile path received d
      → length received ≤ file_max_bytes
      → Current before d
      → Answers
          (record { path = path; received = received })
          (idx + 1 == total)
          before
          (file_chunk_stored accept ctx idx total d)
  unfolding file_chunk_stored
  stored-Answers ctx idx total path received before d v b c =
      let kept : Device S =
        (let file = d.file in
          record d {
            file = record file { expected_idx = idx + 1; last_activity_ms = ctx.stored };
          }) in
      let same : IsFile path received kept = record {
        target = v.target;
        fits = v.fits;
        stream = v.stream;
        count = v.count;
      } in
      elim (Bool-cases (idx + 1 == total)) [
        | inr more ↦
            rw (more, file_chunk_stored)
              (record {
                going = λ o. same;
                small = λ l e. absurd (ground arith);
                plain = λ l e. absurd (ground arith);
                signals = λ l e. absurd (ground arith);
              })
        | inl last ↦
            rw (last, file_chunk_stored)
              (record {
                going = λ o. absurd (ground (arith, finish_closed accept kept));
                small = λ l e. b;
                plain = λ l e. (finish-placed accept path received kept same e).0;
                signals = λ l e s.
                    (let placed = (finish-placed accept path received kept same e).1 s in
                      (
                        d.storage.fs,
                        record {
                          staged_bytes = staged_bytes path received d v;
                          current = c;
                          accepted = placed.0;
                          placed = placed.1;
                        },
                      ));
              })
      ]

  store-Answers :
      (ctx : Context) (idx total : ℕ) (text path received : List ℕ) (before d : Device S)
      → IsFile path received d
      → Current before d
      → Answers
          (record { path = path; received = received ++ bytes_of decode cap text })
          (idx + 1 == total)
          before
          (store_file_chunk decode cap accept ctx idx total text d)
  unfolding store_file_chunk
  store-Answers ctx idx total text path received before d v c =
      let d' = (append_put_file_chunk decode cap text d).0 in
      elim (Option-cases (append_put_file_chunk decode cap text d).1) [
        | inr (reason, e) ↦ rw (e, store_file_chunk) (fail-Answers reason _ _ before d')
        | inl e ↦
            let grown = append-IsFile decode cap text path received d v e in
            let other =
              append_file_other decode cap text signals_path d
                (λ s. tmp_not_signals path (sym v.stream.file ∙ s)) in
            rw (e, store_file_chunk)
              (stored-Answers ctx idx total path _ before d' grown.0 grown.1 (λ s. other ∙ c s))
      ]

  pub first-Answers :
      (ctx : Context) (path : List ℕ) (idx total : ℕ) (text : List ℕ) (d : Device S)
      → idx ≡ 0
      → Answers
          (record { path = path; received = bytes_of decode cap text })
          (idx + 1 == total)
          d
          (accept_file_chunk decode cap accept ctx path idx total text d)
  unfolding accept_file_chunk
  first-Answers ctx path idx total text d z =
      let begun = begin_put_file ctx path total d in
      rw ((==_iff idx 0).1 z, accept_file_chunk)
        (elim (Bool-cases begun.1) [
          | inr e ↦ rw e (record {
            going = λ o. absurd (ground (arith, begin_put_file_closed ctx path total d e));
            small = λ l o. absurd (ground arith);
            plain = λ l o. absurd (ground arith);
            signals = λ l o. absurd (ground arith);
          })
          | inl e ↦ rw e (
              store-Answers ctx idx total text path [] d begun.0 (begin-IsFile ctx path total d e).0
                (begin_file_other ctx path total signals_path d (tmp_not_signals path)))
        ])

  continues_lem :
      (path : List ℕ) (idx : ℕ) (d : Device S)
      → continues_put_file path idx d ≡ true
      → (d.storage.chunk_open ≡ true) × (str_eq d.file.path path ≡ true)
  unfolding continues_put_file
  continues_lem path idx d e = ground arith

  pub next-Answers :
      (ctx : Context) (path : List ℕ) (idx total : ℕ) (text : List ℕ) (told : Told) (d : Device S)
      → idx ≢ 0
      → Follows told d
      → Answers
          (record told { received = told.received ++ bytes_of decode cap text })
          (idx + 1 == total)
          d
          (accept_file_chunk decode cap accept ctx path idx total text d)
  unfolding accept_file_chunk
  next-Answers ctx path idx total text told d n v =
      elim (Bool-cases (continues_put_file path idx d)) [
        | inr e ↦
            rw (ne→== idx 0 n, accept_file_chunk) (rw e (fail-Answers out_of_sequence _ _ d d))
        | inl e ↦
            rw (ne→== idx 0 n, accept_file_chunk)
              (rw e (
                store-Answers ctx idx total text told.path told.received d d
                  (v (continues_lem path idx d e).0) (λ s. refl)))
      ]
