-- ===== src/Upload/Config/History.antt =====
-- Any sequence of configuration chunks, idle ticks and closed sockets, as
-- src/hal/usb/usb_dispatch_config_chunk.cpp handles it while no other transfer uses the chunked write.
use canshift_firmware.Prelude.{
  ne→==, ℕ_discrete, ℕ, ◌≡◌, ◌≢◌, inl, inr, subst, Bool, true, false, ◌||◌, none, some, List, [],
  ◌∷◌, ◌++◌, if◌then◌else◌, leb, ◌==◌, Bool-cases, Option-cases, arith, ==_iff,
}
use canshift_firmware.Storage.FileSystem.{Spiffs}
use canshift_firmware.Upload.{
  Device, Context, Decode, Effect, ConfigCommand, bad_args, out_of_sequence, config_chunk_max_raw,
}
use canshift_firmware.Upload.Config.{
  tick_config_chunk_timeout, abort_socket_config_chunk, abort_config_chunk, abort_config_chunk,
  continues_config_chunk, store_config_chunk, accept_config_chunk, handle_put_config_chunk,
}
use canshift_firmware.Upload.Config.Transfer.{IsTransfer, bytes_or_none}
use canshift_firmware.Upload.Config.Install.{
  requests_reload, IsInstalled, Answers, abort_lem, first-Answers, store-Answers,
  fail_config_chunk-Answers,
}

-- What the chunks since the last one of index 0 brought, and what that one announced.
pub record Told : Type 0 where
  pub received : List ℕ
  pub declared : ℕ

-- A chunk of index 0 starts over.
abbrev pub gather : Decode → ConfigCommand → Told → Told
gather decode cmd told =
    let bytes : List ℕ = elim cmd.data_text [
      | none ↦ []
      | some text ↦ bytes_or_none (decode config_chunk_max_raw text)
    ] in
    if cmd.idx == 0
    then record { received = bytes; declared = cmd.bytes }
    else record told { received = told.received ++ bytes }

pub data Event : Type 0 where
  chunk : Context → ConfigCommand → Event
  tick : ℕ → Event
  socket_closed : Event

abbrev pub hear : Decode → Event → Told → Told
hear decode (chunk ctx cmd) told = gather decode cmd told
hear decode (tick now) told = told
hear decode socket_closed told = told

abbrev pub hear_all : Decode → List Event → Told → Told
hear_all decode [] told = told
hear_all decode (e ∷ es) told = hear_all decode es (hear decode e told)

module _ {S : Spiffs} (decode : Decode) where
  abbrev pub step : Event → Device S → Device S × List Effect
  step (chunk ctx cmd) d = handle_put_config_chunk decode ctx cmd d
  step (tick now) d = tick_config_chunk_timeout now d
  step socket_closed d = abort_socket_config_chunk d

  abbrev pub run : List Event → Device S → Device S
  run [] d = d
  run (e ∷ es) d = run es (step e d).0

  -- An open transfer has stored what was told.
  abbrev Follows : Told → Device S → Type 0
  Follows told d =
      d.config.is_open ≡ true
      → IsTransfer told.received d × (d.config.declared_bytes ≡ told.declared)

  continues_open :
      (idx total : ℕ) (d : Device S)
      → continues_config_chunk idx total d ≡ true
      → d.config.is_open ≡ true
  unfolding continues_config_chunk
  continues_open idx total d e = ground arith

  next-Answers :
      (ctx : Context) (cmd : ConfigCommand) (text : List ℕ) (told : Told) (d : Device S)
      → cmd.idx ≢ 0
      → Follows told d
      → Answers
          (told.received ++ bytes_or_none (decode config_chunk_max_raw text))
          told.declared
          (accept_config_chunk decode ctx cmd text d)
  unfolding accept_config_chunk
  next-Answers ctx cmd text told d n v =
      elim (Bool-cases (continues_config_chunk cmd.idx cmd.total d)) [
        | inr e ↦
            rw (ne→== cmd.idx 0 n, accept_config_chunk)
              (rw e (fail_config_chunk-Answers out_of_sequence _ _ d))
        | inl e ↦
            let held = v (continues_open cmd.idx cmd.total d e) in
            rw (ne→== cmd.idx 0 n, accept_config_chunk)
              (rw e (
                subst
                  (λ n.
                    Answers (told.received ++ bytes_or_none (decode config_chunk_max_raw text)) n
                      (store_config_chunk decode ctx cmd.idx cmd.total text d))
                  held.1
                  (store-Answers decode ctx cmd.idx cmd.total text told.received d held.0
                    (λ z. absurd (n z)))))
      ]

  handle-Answers :
      (ctx : Context) (cmd : ConfigCommand) (told : Told) (d : Device S)
      → Follows told d
      → Answers
          (gather decode cmd told).received
          (gather decode cmd told).declared
          (handle_put_config_chunk decode ctx cmd d)
  unfolding handle_put_config_chunk
  handle-Answers ctx cmd told d v = elim (Option-cases cmd.data_text) [
    | inl e ↦ rw (e, handle_put_config_chunk) (fail_config_chunk-Answers bad_args _ _ d)
    | inr (text, e) ↦ elim (Bool-cases ((cmd.total == 0) || leb cmd.total cmd.idx)) [
      | inl bad ↦
          rw (e, handle_put_config_chunk) (rw bad (fail_config_chunk-Answers bad_args _ _ d))
      | inr good ↦ elim (ℕ_discrete cmd.idx 0) [
        | yes z ↦
            rw (e, handle_put_config_chunk)
              (rw (good, (==_iff cmd.idx 0).1 z) (first-Answers decode ctx cmd text d z))
        | no n ↦
            rw (e, handle_put_config_chunk)
              (rw (good, ne→== cmd.idx 0 n) (next-Answers ctx cmd text told d n v))
      ]
    ]
  ]

  aborted_or_same :
      (d : Device S) (gone : Bool) (told : Told)
      → Follows told d
      → Follows told (if gone then abort_config_chunk d else (d, [])).0
  aborted_or_same d true told v = λ o. absurd (ground (arith, abort_lem d))
  aborted_or_same d false told v = v

  step-Follows :
      (e : Event) (told : Told) (d : Device S)
      → Follows told d
      → Follows (hear decode e told) (step e d).0
  unfolding tick_config_chunk_timeout abort_socket_config_chunk
  step-Follows (chunk ctx cmd) told d v = (handle-Answers ctx cmd told d v).going
  step-Follows (tick now) told d v = aborted_or_same d _ told v
  step-Follows socket_closed told d v = aborted_or_same d d.config.from_socket told v

  run-Follows :
      (es : List Event) (told : Told) (d : Device S)
      → Follows told d
      → Follows (hear_all decode es told) (run es d)
  run-Follows [] told d v = v
  run-Follows (e ∷ es) told d v =
      run-Follows es (hear decode e told) (step e d).0 (step-Follows e told d v)

  -- After any sequence of chunks, idle ticks and closed sockets on a device with no transfer open, a
  -- chunk requests a reload only when the dashboard file holds exactly the bytes of the chunks since
  -- the last one of index 0, in order; they are as many as that chunk announced, at most 64 KiB,
  -- and begin with `{` and end with `}`.
  pub reload-IsInstalled :
      (es : List Event) (ctx : Context) (cmd : ConfigCommand) (told : Told) (d : Device S)
      → d.config.is_open ≡ false
      → requests_reload (handle_put_config_chunk decode ctx cmd (run es d)).1 ≡ true
      → let heard = gather decode cmd (hear_all decode es told) in
        IsInstalled heard.received heard.declared
          (handle_put_config_chunk decode ctx cmd (run es d)).0
  reload-IsInstalled es ctx cmd told d closed asked =
      (handle-Answers ctx cmd (hear_all decode es told) (run es d)
          (run-Follows es told d (λ o. absurd (ground arith)))).installed
        asked
