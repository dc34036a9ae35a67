-- ===== src/Upload/Files/History.antt =====
-- Any sequence of PUT_FILE chunks, idle ticks and closed sockets, as
-- src/hal/usb/usb_dispatch_files.cpp handles it while no configuration transfer uses the chunked write.
use canshift_firmware.Prelude.{
  ℕ, ◌+◌, ◌≡◌, ◌≢◌, inl, inr, sym, ◌∙◌, Bool, true, false, not, ◌&&◌, ◌||◌, none, some, List, [],
  ◌∷◌, ◌++◌, if◌then◌else◌, ltb, leb, ◌==◌, arith, Bool-cases, Option-cases, ==_iff, ne→==,
  ℕ_discrete, sub32,
}
use canshift_firmware.Storage.FileSystem.{Spiffs}
use canshift_firmware.Storage.Chunks.{StagedFileCheck}
use canshift_firmware.Storage.Chunks.Stream.{abort_closed}
use canshift_firmware.Upload.{
  Device, Context, FileCommand, Decode, Effect, bad_args, idle_timeout_ms,
}
use canshift_firmware.Upload.Paths.{is_path_safe}
use canshift_firmware.Upload.Files.{abort_chunk_transfer, handle_put_file}
use canshift_firmware.Upload.Config.{
  tick_chunk_transfer_timeout, tick_config_chunk_timeout, abort_config_chunk,
  abort_socket_transfers, abort_socket_config_chunk,
}
use canshift_firmware.Upload.Files.Transfer.{bytes_of, abort_transfer_closed, tmp_not_signals}
use canshift_firmware.Upload.Files.Answer.{
  Told, Follows, SparesSignals, Answers, fail-Answers, first-Answers, next-Answers,
}

-- A chunk of index 0 starts over; one that cannot be read brings no bytes.
abbrev pub gather : Decode → ℕ → FileCommand → Told → Told
gather decode cap cmd told = elim cmd.path [
  | none ↦ told
  | some path ↦ elim cmd.data_text [
    | none ↦ told
    | some text ↦
        if cmd.idx == 0
        then record { path = path; received = bytes_of decode cap text }
        else record told { received = told.received ++ bytes_of decode cap text }
  ]
]

pub data Event : Type 0 where
  chunk : Context → FileCommand → Event
  tick : ℕ → Event
  socket_closed : Event

abbrev pub hear : Decode → ℕ → Event → Told → Told
hear decode cap (chunk ctx cmd) told = gather decode cap cmd told
hear decode cap (tick now) told = told
hear decode cap socket_closed told = told

abbrev pub hear_all : Decode → ℕ → List Event → Told → Told
hear_all decode cap [] told = told
hear_all decode cap (e ∷ es) told = hear_all decode cap es (hear decode cap e told)

module _ {S : Spiffs} (decode : Decode) (cap : ℕ) (accept : StagedFileCheck S) where
  pub handle-Answers :
      (ctx : Context) (cmd : FileCommand) (told : Told) (d : Device S)
      → (cmd.idx ≢ 0 → Follows decode cap accept told d)
      → Answers decode cap accept
          (gather decode cap cmd told)
          (cmd.idx + 1 == cmd.total)
          d
          (handle_put_file decode cap accept ctx cmd d)
  unfolding handle_put_file
  handle-Answers ctx cmd told d v = elim (Option-cases cmd.path) [
    | inl e ↦ rw (e, handle_put_file) (fail-Answers decode cap accept bad_args _ _ d d)
    | inr (path, e) ↦ elim (Option-cases cmd.data_text) [
      | inl k ↦ rw (e, handle_put_file) (rw k (fail-Answers decode cap accept bad_args _ _ d d))
      | inr (text, k) ↦
          elim (Bool-cases
            (not (is_path_safe (some path)) || ((cmd.total == 0) || leb cmd.total cmd.idx))) [
              | inl bad ↦
                  rw (e, handle_put_file)
                    (rw k (rw bad (fail-Answers decode cap accept bad_args _ _ d d)))
              | inr good ↦ elim (ℕ_discrete cmd.idx 0) [
                | yes z ↦
                    rw (e, handle_put_file)
                      (rw k (
                        rw (good, (==_iff cmd.idx 0).1 z)
                          (first-Answers decode cap accept ctx path cmd.idx cmd.total text d z)))
                | no n ↦
                    rw (e, handle_put_file)
                      (rw k (
                        rw (good, ne→== cmd.idx 0 n)
                          (next-Answers decode cap accept ctx path cmd.idx cmd.total text told d n
                            (v n))))
              ]
            ]
    ]
  ]

  -- Of the two ways of a test, both follow.
  if-Follows :
      (told : Told) (test : Bool) (x y : Device S × List Effect)
      → Follows decode cap accept told x.0
      → Follows decode cap accept told y.0
      → Follows decode cap accept told (if test then x else y).0
  if-Follows told true x y v w = v
  if-Follows told false x y v w = w

  -- A stream that is closed follows anything.
  closed-Follows :
      (told : Told) (d : Device S) → d.storage.chunk_open ≡ false → Follows decode cap accept told d
  closed-Follows told d e = λ c. absurd (ground arith)

  config_abort-Follows :
      (told : Told) (d : Device S)
      → Follows decode cap accept told d
      → Follows decode cap accept told (abort_config_chunk d).0
  unfolding abort_config_chunk
  config_abort-Follows told d v =
      if-Follows told (not d.config.is_open) (d, []) _ v
        (closed-Follows told _ (abort_closed d.storage))

  tick-Follows :
      (told : Told) (now : ℕ) (d : Device S)
      → Follows decode cap accept told d
      → Follows decode cap accept told (tick_chunk_transfer_timeout now d).0
  unfolding tick_chunk_transfer_timeout
  tick-Follows told now d v =
      if-Follows told
        (ltb 0 d.file.total
          && (d.storage.chunk_open && ltb idle_timeout_ms (sub32 now d.file.last_activity_ms)))
        (abort_chunk_transfer d, []) (tick_config_chunk_timeout now d)
        (closed-Follows told _ (abort_transfer_closed d))
        (if-Follows told
          (d.config.is_open && ltb idle_timeout_ms (sub32 now d.config.last_activity_ms))
          (abort_config_chunk d) (d, []) (config_abort-Follows told d v) v)

  aborted-Follows :
      (told : Told) (gone : Bool) (d : Device S)
      → Follows decode cap accept told d
      → Follows decode cap accept told (if gone then abort_chunk_transfer d else d)
  aborted-Follows told true d v = closed-Follows told _ (abort_transfer_closed d)
  aborted-Follows told false d v = v

  socket-Follows :
      (told : Told) (gone : Bool) (d : Device S)
      → Follows decode cap accept told d
      → Follows decode cap accept told
          (abort_socket_config_chunk (if gone then abort_chunk_transfer d else d)).0
  unfolding abort_socket_config_chunk
  socket-Follows told gone d v =
      let d' : Device S = if gone then abort_chunk_transfer d else d in
      let v' : Follows decode cap accept told d' = aborted-Follows told gone d v in
      if-Follows told d'.config.from_socket (abort_config_chunk d') (d', [])
        (config_abort-Follows told d' v') v'

  abbrev pub step : Event → Device S → Device S × List Effect
  step (chunk ctx cmd) d = handle_put_file decode cap accept ctx cmd d
  step (tick now) d = tick_chunk_transfer_timeout now d
  step socket_closed d = abort_socket_transfers d

  abbrev pub run : List Event → Device S → Device S
  run [] d = d
  run (e ∷ es) d = run es (step e d).0

  step-Follows :
      (e : Event) (told : Told) (d : Device S)
      → Follows decode cap accept told d
      → Follows decode cap accept (hear decode cap e told) (step e d).0
  unfolding abort_socket_transfers
  step-Follows (chunk ctx cmd) told d v = (handle-Answers ctx cmd told d (λ _. v)).going
  step-Follows (tick now) told d v = tick-Follows told now d v
  step-Follows socket_closed told d v =
      socket-Follows told (ltb 0 d.file.total && d.file.from_socket) d v

  run-Follows :
      (es : List Event) (told : Told) (d : Device S)
      → Follows decode cap accept told d
      → Follows decode cap accept (hear_all decode cap es told) (run es d)
  run-Follows [] told d v = v
  run-Follows (e ∷ es) told d v =
      run-Follows es (hear decode cap e told) (step e d).0 (step-Follows e told d v)

  abbrev LastAnswers : List Event → Context → FileCommand → Told → Device S → Type 0
  LastAnswers es ctx cmd told d =
      Answers decode cap accept (gather decode cap cmd (hear_all decode cap es told))
        (cmd.idx + 1 == cmd.total) (run es d) (handle_put_file decode cap accept ctx cmd (run es d))

  pub last-Answers :
      (es : List Event) (ctx : Context) (cmd : FileCommand) (told : Told) (d : Device S)
      → d.storage.chunk_open ≡ false
      → LastAnswers es ctx cmd told d
  last-Answers es ctx cmd told d closed =
      handle-Answers ctx cmd (hear_all decode cap es told) (run es d)
        (λ _. run-Follows es told d (closed-Follows told d closed))

  pub run-SparesSignals :
      (es : List Event) (told : Told) (d : Device S)
      → d.storage.chunk_open ≡ false
      → SparesSignals decode cap accept (run es d)
  run-SparesSignals es told d closed = λ o same.
      let follows = run-Follows es told d (closed-Follows told d closed) o in
      tmp_not_signals (hear_all decode cap es told).path (sym follows.stream.actual ∙ same)
