-- ===== src/Upload/Config.antt =====
-- PUT_CONFIG_CHUNK: src/hal/usb/usb_dispatch_config_chunk.cpp.
pub mod Transfer
pub mod Install
pub mod History
use canshift_firmware.Prelude.{
  ℕ, zero, suc, ◌+◌, Bool, true, false, not, ◌&&◌, ◌||◌, Option, none, some, List, [], ◌∷◌, ◌++◌,
  if◌then◌else◌, ltb, leb, ◌==◌, ◌!=◌, length, take, sub32, add32, get_or,
}
use canshift_firmware.Storage.FileSystem.{Spiffs}
use canshift_firmware.Storage.Chunks.{
  Storage, abort_chunked_write, begin_chunked_write_atomic, append_chunk, end_chunked_write,
}
use canshift_firmware.Upload.{
  Device, ConfigChunk, no_config_chunk, Context, Decode, Failure, Effect, ConfigCommand, reply_ok,
  reply_error, bad_args, too_large, open_failed, out_of_sequence, b64_decode, write_failed,
  burn_overlay_show, burn_overlay_error, config_reload, config_max_bytes, config_chunk_max_raw,
  dashboard_path, idle_timeout_ms,
}
use canshift_firmware.Upload.Files.{abort_chunk_transfer}

-- `raw[decoded - 1]`, kept as it was when nothing was decoded.
abbrev pub last_or : List ℕ → ℕ → ℕ
last_or [] d = d
last_or (b ∷ bytes) d = last_or bytes b

unfoldable pub record_config_bytes : List ℕ → ℕ → ConfigChunk → ConfigChunk
record_config_bytes bytes idx t = if length bytes == 0 then t else record t {
  first_byte = if idx == 0 then get_or bytes 0 0 else t.first_byte;
  last_byte = last_or bytes 0;
  written_bytes = t.written_bytes + length bytes;
}

unfoldable pub received_config_looks_complete : ConfigChunk → Bool
received_config_looks_complete t =
    if (t.declared_bytes == 0) || (t.written_bytes != t.declared_bytes)
    then false
    else (t.first_byte == 123) && (t.last_byte == 125)

module _ {S : Spiffs} where
  unfoldable pub abort_config_chunk : Device S → Device S × List Effect
  abort_config_chunk d = if not d.config.is_open then (d, []) else (
    record d { storage = abort_chunked_write d.storage; config = no_config_chunk },
    burn_overlay_error ∷ [],
  )

  unfoldable pub fail_config_chunk : Failure → Device S → Device S × List Effect
  unfolding abort_config_chunk
  fail_config_chunk reason d =
      let (d', effects) = abort_config_chunk d in (d', effects ++ reply_error reason ∷ [])

  -- `beginConfigChunk` past the abort of the transfer before.
  unfoldable pub open_config_chunk : Context → ℕ → ℕ → Device S → Device S × List Effect × Bool
  open_config_chunk ctx declared total d =
      let (storage, opened) = begin_chunked_write_atomic dashboard_path d.storage in
      if declared == 0
      then (d, reply_error bad_args ∷ [], false)
      else if ltb config_max_bytes declared
      then (d, reply_error too_large ∷ [], false)
      else if not opened
      then (record d { storage = storage }, reply_error open_failed ∷ [], false)
      else (
        record d {
          storage = storage;
          config = record no_config_chunk {
            total = total;
            last_activity_ms = ctx.started;
            declared_bytes = declared;
            is_open = true;
            from_socket = ctx.from_socket;
          };
        },
        burn_overlay_show ∷ [],
        true,
      )

  unfoldable pub begin_config_chunk : Context → ℕ → ℕ → Device S → Device S × List Effect × Bool
  unfolding abort_config_chunk open_config_chunk
  begin_config_chunk ctx declared total d =
      let (idle, effects) = abort_config_chunk d in
      let (d', more, begun) = open_config_chunk ctx declared total idle in
      (d', effects ++ more, begun)

  unfoldable pub continues_config_chunk : ℕ → ℕ → Device S → Bool
  continues_config_chunk idx total d =
      d.config.is_open && ((d.config.expected_idx == idx) && (d.config.total == total))

  -- The failure to reply with is `none` when the chunk is stored.
  unfoldable pub append_config_chunk :
      Decode → Context → List ℕ → ℕ → Device S → Device S × Option Failure
  append_config_chunk decode ctx text idx d = elim (decode config_chunk_max_raw text) [
    | none ↦ (d, some b64_decode)
    | some bytes ↦
        (let (storage, taken) = append_chunk bytes d.storage in
          let recorded = record_config_bytes bytes idx d.config in
          if ltb d.config.declared_bytes (d.config.written_bytes + length bytes)
          then (d, some too_large)
          else if taken
          then (
            record d {
              storage = storage;
              config = record recorded { expected_idx = idx + 1; last_activity_ms = ctx.stored };
            },
            none,
          )
          else (record d { storage = storage }, some write_failed))
  ]

  unfoldable pub commit_config_chunk : Device S → Device S × List Effect
  unfolding received_config_looks_complete
  commit_config_chunk d =
      let complete = received_config_looks_complete d.config in
      let (ended, swapped) = end_chunked_write d.storage in
      let committed = complete && swapped in
      let storage = if complete then ended else abort_chunked_write d.storage in
      (
        record d { storage = storage; config = no_config_chunk },
        if committed
            then config_reload ∷ reply_ok ∷ []
            else burn_overlay_error ∷ reply_error write_failed ∷ [],
      )

  -- `handlePutConfigChunk` from the append on.
  unfoldable pub store_config_chunk :
      Decode → Context → ℕ → ℕ → List ℕ → Device S → Device S × List Effect
  unfolding append_config_chunk fail_config_chunk commit_config_chunk
  store_config_chunk decode ctx idx total text d =
      let (d', failure) = append_config_chunk decode ctx text idx d in
      elim failure [
        | none ↦ if ltb (idx + 1) total then (d', reply_ok ∷ []) else commit_config_chunk d'
        | some reason ↦ fail_config_chunk reason d'
      ]

  unfoldable pub accept_config_chunk :
      Decode → Context → ConfigCommand → List ℕ → Device S → Device S × List Effect
  unfolding begin_config_chunk continues_config_chunk store_config_chunk fail_config_chunk
  accept_config_chunk decode ctx cmd text d =
      let (opened, effects, begun) = begin_config_chunk ctx cmd.bytes cmd.total d in
      let (stored, more) = store_config_chunk decode ctx cmd.idx cmd.total text opened in
      if cmd.idx == 0
      then (if begun then (stored, effects ++ more) else (opened, effects))
      else if continues_config_chunk cmd.idx cmd.total d
      then store_config_chunk decode ctx cmd.idx cmd.total text d
      else fail_config_chunk out_of_sequence d

  unfoldable pub handle_put_config_chunk :
      Decode → Context → ConfigCommand → Device S → Device S × List Effect
  handle_put_config_chunk decode ctx cmd d = elim cmd.data_text [
    | none ↦ fail_config_chunk bad_args d
    | some text ↦
        if (cmd.total == 0) || leb cmd.total cmd.idx
        then fail_config_chunk bad_args d
        else accept_config_chunk decode ctx cmd text d
  ]

  unfoldable pub tick_config_chunk_timeout : ℕ → Device S → Device S × List Effect
  unfolding abort_config_chunk
  tick_config_chunk_timeout now d =
      if d.config.is_open && ltb idle_timeout_ms (sub32 now d.config.last_activity_ms)
      then abort_config_chunk d
      else (d, [])

  unfoldable pub tick_chunk_transfer_timeout : ℕ → Device S → Device S × List Effect
  unfolding tick_config_chunk_timeout abort_chunk_transfer
  tick_chunk_transfer_timeout now d =
      if ltb 0 d.file.total
        && (d.storage.chunk_open && ltb idle_timeout_ms (sub32 now d.file.last_activity_ms))
      then (abort_chunk_transfer d, [])
      else tick_config_chunk_timeout now d

  unfoldable pub abort_socket_config_chunk : Device S → Device S × List Effect
  unfolding abort_config_chunk
  abort_socket_config_chunk d = if d.config.from_socket then abort_config_chunk d else (d, [])

  unfoldable pub abort_socket_transfers : Device S → Device S × List Effect
  unfolding abort_socket_config_chunk abort_chunk_transfer
  abort_socket_transfers d =
      abort_socket_config_chunk
        (if ltb 0 d.file.total && d.file.from_socket then abort_chunk_transfer d else d)

  unfoldable pub socket_config_chunk_open : Device S → Bool
  socket_config_chunk_open d = d.config.is_open && d.config.from_socket

  unfoldable pub socket_file_transfer_open : Device S → Bool
  unfolding socket_config_chunk_open
  socket_file_transfer_open d =
      (ltb 0 d.file.total && d.file.from_socket) || socket_config_chunk_open d
