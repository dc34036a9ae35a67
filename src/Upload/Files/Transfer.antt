-- ===== src/Upload/Files/Transfer.antt =====
-- A file that arrives in chunks, src/hal/usb/usb_dispatch_files.cpp, while no configuration transfer
-- uses the chunked write.
use canshift_firmware.Prelude.{
  ℕ, ◌+◌, ◌≤◌, ◌<◌, ◌≡◌, ◌≢◌, inl, inr, refl, ap, ◌∙◌, sym, Bool, true, false, none, some, List, [],
  ◌∷◌, ◌++◌, if◌then◌else◌, length, arith, Bool-cases, Option-cases, length-append,
}
use canshift_firmware.Storage.FileSystem.{Spiffs}
use canshift_firmware.Storage.{cfg_max_path_len, tmp_suffix}
use canshift_firmware.Storage.Chunks.{
  StagedFileCheck, ChunkCommit, committed, rejected, failed, append_chunk,
  begin_chunked_write_atomic, end_chunked_write, end_chunked_write_checked, is_committed,
}
use canshift_firmware.Storage.Chunks.Stream.{
  IsStream, begin-IsStream, append-IsStream, end_placed, end_checked_placed, begin_closed,
  abort_closed, end_closed, end_plain_closed, append_chunk_other,
}
use canshift_firmware.Storage.Chunks.Begin.{abort_other, begin_other}
use canshift_firmware.Upload.{
  Device, Context, Decode, Effect, write_failed, reply_ok, reply_error, reboot, signals_path,
  file_max_bytes, str_eq,
}
use canshift_firmware.Upload.Files.{
  signals_effects, abort_chunk_transfer, finish_chunk_transfer, begin_put_file,
  append_put_file_chunk,
}

-- The bytes of a chunk.
abbrev pub bytes_of : Decode → ℕ → List ℕ → List ℕ
bytes_of decode cap text = elim (decode cap text) [ none ↦ [] | some bytes ↦ bytes ]

-- The chunk was stored, or the file installed: what the host reads as success.
abbrev pub succeeds : List Effect → Bool
succeeds (reply_ok ∷ []) = true
succeeds (reboot ∷ []) = true
succeeds _ = false

plain_succeeds :
    (done : Bool) → succeeds (if done then reply_ok ∷ [] else reply_error write_failed ∷ []) ≡ done
plain_succeeds true = refl
plain_succeeds false = refl

signals_succeed : (result : ChunkCommit) → succeeds (signals_effects result) ≡ is_committed result
signals_succeed committed = refl
signals_succeed rejected = refl
signals_succeed failed = refl

last_or : List ℕ → ℕ → ℕ
last_or [] n = n
last_or (c ∷ cs) n = last_or cs c

last_or-tmp : (p : List ℕ) (n : ℕ) → last_or (p ++ tmp_suffix) n ≡ 112
unfolding last_or
last_or-tmp [] n = refl
last_or-tmp (c ∷ p) n = last_or-tmp p c

-- No staged file is the signals file.
pub tmp_not_signals : (p : List ℕ) → p ++ tmp_suffix ≢ signals_path
unfolding last_or
tmp_not_signals p e =
    let same : 112 ≡ 110 = sym (last_or-tmp p 0) ∙ ap (λ q. last_or q 0) e in omega (arith, same)

module _ {S : Spiffs} where
  -- The stream is open for the file of the transfer, and has stored these bytes.
  pub record IsFile (path received : List ℕ) (d : Device S) : Type 0 where
    pub target : d.file.path ≡ path
    pub fits : length path < cfg_max_path_len
    pub stream : IsStream path received d.storage
    pub count : d.file.written_bytes ≡ length received

  pub staged_bytes :
      (path received : List ℕ) (d : Device S)
      → IsFile path received d
      → S.content d.storage.fs (path ++ tmp_suffix) ≡ some received
  staged_bytes path received d v = ap (S.content d.storage.fs) (sym v.stream.file) ∙ v.stream.staged

  pub begin-IsFile :
      (ctx : Context) (path : List ℕ) (total : ℕ) (d : Device S)
      → (begin_put_file ctx path total d).1 ≡ true
      → IsFile path [] (begin_put_file ctx path total d).0
        × ((begin_put_file ctx path total d).0.config ≡ d.config)
  unfolding begin_put_file
  begin-IsFile ctx path total d e =
      elim (Bool-cases (begin_chunked_write_atomic path (abort_chunk_transfer d).storage).1) [
        | inr n ↦ absurd (ground arith)
        | inl o ↦
            let stream = begin-IsStream path (abort_chunk_transfer d).storage o in
            rw (o, begin_put_file)
              (record { target = refl; fits = stream.0; stream = stream.1; count = refl }, refl)
      ]

  pub abort_transfer_closed : (d : Device S) → (abort_chunk_transfer d).storage.chunk_open ≡ false
  unfolding abort_chunk_transfer
  abort_transfer_closed d = ground (arith, abort_closed d.storage)

  pub begin_put_file_closed :
      (ctx : Context) (path : List ℕ) (total : ℕ) (d : Device S)
      → (begin_put_file ctx path total d).1 ≡ false
      → (begin_put_file ctx path total d).0.storage.chunk_open ≡ false
  unfolding begin_put_file
  begin_put_file_closed ctx path total d e =
      elim (Bool-cases (begin_chunked_write_atomic path (abort_chunk_transfer d).storage).1) [
        | inl o ↦ absurd (ground arith)
        | inr n ↦
            rw (n, begin_put_file)
              (begin_closed path (abort_chunk_transfer d).storage (abort_transfer_closed d) n)
      ]

  file_append_lem :
      (decode : Decode) (cap : ℕ) (text bytes : List ℕ) (d : Device S)
      → decode cap text ≡ some bytes
      → (append_put_file_chunk decode cap text d).1 ≡ none
      → ((append_chunk bytes d.storage).1 ≡ true)
        × (d.file.written_bytes + length bytes ≤ file_max_bytes)
        × ((append_put_file_chunk decode cap text d).0 ≡ (
            let file = d.file in
            record d {
              storage = (append_chunk bytes d.storage).0;
              file = record file { written_bytes = file.written_bytes + length bytes };
            }))
  unfolding append_put_file_chunk
  file_append_lem decode cap text bytes d k e = ground arith

  pub append_file_other :
      (decode : Decode) (cap : ℕ) (text q : List ℕ) (d : Device S)
      → d.storage.file ≢ q
      → S.content (append_put_file_chunk decode cap text d).0.storage.fs q
        ≡ S.content d.storage.fs q
  unfolding append_put_file_chunk
  append_file_other decode cap text q d h = elim (Option-cases (decode cap text)) [
    | inl n ↦ rw (n, append_put_file_chunk) refl
    | inr (bytes, k) ↦ ground (arith, append_chunk_other bytes q d.storage h)
  ]

  -- An abort removes a staged file only of an open stream.
  abort_transfer_other :
      (q : List ℕ) (d : Device S)
      → (d.storage.chunk_open ≡ true → d.storage.actual_path ≢ q)
      → S.content (abort_chunk_transfer d).storage.fs q ≡ S.content d.storage.fs q
  unfolding abort_chunk_transfer
  abort_transfer_other q d h = elim (Bool-cases d.storage.chunk_open) [
    | inl o ↦ ground (arith, abort_other q d.storage (h o))
    | inr n ↦ ground arith
  ]

  pub begin_file_other :
      (ctx : Context) (path : List ℕ) (total : ℕ) (q : List ℕ) (d : Device S)
      → path ++ tmp_suffix ≢ q
      → (d.storage.chunk_open ≡ true → d.storage.actual_path ≢ q)
      → S.content (begin_put_file ctx path total d).0.storage.fs q ≡ S.content d.storage.fs q
  unfolding begin_put_file
  begin_file_other ctx path total q d h k =
      let idle = abort_chunk_transfer d in
      ground (
        arith,
        abort_transfer_other q d k,
        begin_other path q idle.storage (abort_transfer_closed d) h,
      )

  pub append-IsFile :
      (decode : Decode) (cap : ℕ) (text path received : List ℕ) (d : Device S)
      → IsFile path received d
      → (append_put_file_chunk decode cap text d).1 ≡ none
      → IsFile path
          (received ++ bytes_of decode cap text)
          (append_put_file_chunk decode cap text d).0
        × (length (received ++ bytes_of decode cap text) ≤ file_max_bytes)
        × ((append_put_file_chunk decode cap text d).0.config ≡ d.config)
  unfolding append_put_file_chunk
  append-IsFile decode cap text path received d v e = elim (Option-cases (decode cap text)) [
    | inl n ↦ absurd (ground arith)
    | inr (bytes, k) ↦
        let done = file_append_lem decode cap text bytes d k e in
        rw done.2 (
          rw (k, bytes_of)
            (
              record {
                target = v.target;
                fits = v.fits;
                stream = append-IsStream path received bytes d.storage v.stream done.0;
                count = omega (arith, v.count, length-append received bytes);
              },
              omega (arith, v.count, done.1, length-append received bytes),
              refl,
            ))
  ]

  -- The end of a transfer: of the signals file, what the test left staged, which it accepted; of any other
  -- file, the bytes received.
  pub finish-placed :
      (accept : StagedFileCheck S) (path received : List ℕ) (d : Device S)
      → IsFile path received d
      → succeeds (finish_chunk_transfer accept d).1 ≡ true
      → let out = accept d.storage.fs (path ++ tmp_suffix) in
        let fs = (finish_chunk_transfer accept d).0.storage.fs in
        (str_eq path signals_path ≡ false → S.content fs path ≡ some received)
        × (str_eq path signals_path ≡ true
            → (out.1 ≡ true) × (S.content fs path ≡ S.content out.0 (path ++ tmp_suffix)))
  unfolding finish_chunk_transfer
  finish-placed accept path received d v e =
      let same = ap (λ p. str_eq p signals_path) v.target in
      elim (Bool-cases (str_eq d.file.path signals_path)) [
        | inl s ↦
            let result = (end_chunked_write_checked accept d.storage).1 in
            let checked =
              end_checked_placed accept path received d.storage v.fits v.stream
                (sym (signals_succeed result) ∙ (rw (s, finish_chunk_transfer) at e)) in
            (λ n. absurd (ground (arith, same)), λ _. rw (s, finish_chunk_transfer) checked)
        | inr n ↦ (
          λ _.
              rw (n, finish_chunk_transfer)
                (end_placed path received d.storage v.fits v.stream (
                  sym (plain_succeeds (end_chunked_write d.storage).1)
                  ∙ (rw (n, finish_chunk_transfer) at e))),
          λ s. absurd (ground (arith, same)),
        )
      ]

  pub finish_closed :
      (accept : StagedFileCheck S) (d : Device S)
      → (finish_chunk_transfer accept d).0.storage.chunk_open ≡ false
  unfolding finish_chunk_transfer
  finish_closed accept d = elim (Bool-cases (str_eq d.file.path signals_path)) [
    | inl s ↦ rw (s, finish_chunk_transfer) (end_closed accept d.storage)
    | inr n ↦ rw (n, finish_chunk_transfer) (end_plain_closed d.storage)
  ]
