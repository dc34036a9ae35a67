-- ===== src/Upload/Files.antt =====
-- PUT_FILE: src/hal/usb/usb_dispatch_files.cpp and usb_signals_upload.cpp.
pub mod Transfer
pub mod Answer
pub mod History
pub mod Install
use canshift_firmware.Prelude.{
  ℕ, zero, suc, ◌+◌, Bool, true, false, not, ◌&&◌, ◌||◌, Option, none, some, List, [], ◌∷◌, ◌++◌,
  if◌then◌else◌, ltb, leb, ◌==◌, ◌!=◌, length, take, sub32, add32, get_or,
}
use canshift_firmware.Storage.FileSystem.{Spiffs}
use canshift_firmware.Storage.Chunks.{
  Storage, StagedFileCheck, ChunkCommit, committed, rejected, failed, abort_chunked_write,
  begin_chunked_write_atomic, append_chunk, end_chunked_write, end_chunked_write_checked,
}
use canshift_firmware.Upload.{
  Device, ChunkTransfer, Context, Decode, Failure, Effect, FileCommand, reply_ok, reply_error,
  bad_args, too_large, open_failed, out_of_sequence, b64_decode, write_failed, invalid_signals,
  reboot, file_max_bytes, str_eq, signals_path, idle_timeout_ms,
}
use canshift_firmware.Upload.Paths.{is_path_safe}

unfoldable pub reset_chunk_state : ChunkTransfer → ChunkTransfer
reset_chunk_state t = record t {
  path = [];
  expected_idx = 0;
  total = 0;
  written_bytes = 0;
  from_socket = false;
}

abbrev pub signals_effects : ChunkCommit → List Effect
signals_effects committed = reboot ∷ []
signals_effects rejected = reply_error invalid_signals ∷ []
signals_effects failed = reply_error write_failed ∷ []

module _ {S : Spiffs} where
  unfoldable pub abort_chunk_transfer : Device S → Device S
  unfolding reset_chunk_state
  abort_chunk_transfer d = record d {
    storage = if d.storage.chunk_open then abort_chunked_write d.storage else d.storage;
    file = reset_chunk_state d.file;
  }

  unfoldable pub finish_plain_file : Device S → Device S × List Effect
  unfolding reset_chunk_state
  finish_plain_file d =
      let (storage, finalized) = end_chunked_write d.storage in
      (
        record d { storage = storage; file = reset_chunk_state d.file },
        if finalized then reply_ok ∷ [] else reply_error write_failed ∷ [],
      )

  unfoldable pub commit_signals_upload : StagedFileCheck S → Device S → Device S × List Effect
  commit_signals_upload accept d =
      let (storage, result) = end_chunked_write_checked accept d.storage in
      (record d { storage = storage }, signals_effects result)

  unfoldable pub finish_chunk_transfer : StagedFileCheck S → Device S → Device S × List Effect
  unfolding reset_chunk_state commit_signals_upload finish_plain_file
  finish_chunk_transfer accept d =
      if str_eq d.file.path signals_path
      then commit_signals_upload accept (record d { file = reset_chunk_state d.file })
      else finish_plain_file d

  unfoldable pub fail_chunk : Failure → Device S → Device S × List Effect
  unfolding abort_chunk_transfer
  fail_chunk reason d = (abort_chunk_transfer d, reply_error reason ∷ [])

  unfoldable pub begin_put_file : Context → List ℕ → ℕ → Device S → Device S × Bool
  unfolding abort_chunk_transfer
  begin_put_file ctx path total d =
      let idle = abort_chunk_transfer d in
      let (storage, opened) = begin_chunked_write_atomic path idle.storage in
      let idle_file = idle.file in
      let armed = record idle_file {
        path = path;
        total = total;
        expected_idx = 0;
        from_socket = ctx.from_socket;
      } in
      if opened
      then (record idle { storage = storage; file = armed }, true)
      else (record idle { storage = storage }, false)

  unfoldable pub continues_put_file : List ℕ → ℕ → Device S → Bool
  continues_put_file path idx d =
      d.storage.chunk_open && ((d.file.expected_idx == idx) && str_eq d.file.path path)

  -- The failure to reply with is `none` when the chunk is stored.
  unfoldable pub append_put_file_chunk : Decode → ℕ → List ℕ → Device S → Device S × Option Failure
  append_put_file_chunk decode cap text d = elim (decode cap text) [
    | none ↦ (d, some b64_decode)
    | some bytes ↦
        (let (storage, taken) = append_chunk bytes d.storage in
          let file = d.file in
          if ltb file_max_bytes (file.written_bytes + length bytes)
          then (d, some too_large)
          else if taken
          then (
            record d {
              storage = storage;
              file = record file { written_bytes = file.written_bytes + length bytes };
            },
            none,
          )
          else (record d { storage = storage }, some write_failed))
  ]

  -- `handlePutFile` behind the append.
  unfoldable pub file_chunk_stored :
      StagedFileCheck S → Context → ℕ → ℕ → Device S → Device S × List Effect
  unfolding finish_chunk_transfer
  file_chunk_stored accept ctx idx total d =
      let file = d.file in
      let kept = record d {
        file = record file { expected_idx = idx + 1; last_activity_ms = ctx.stored };
      } in
      if idx + 1 == total then finish_chunk_transfer accept kept else (kept, reply_ok ∷ [])

  unfoldable pub store_file_chunk :
      Decode → ℕ → StagedFileCheck S → Context → ℕ → ℕ → List ℕ → Device S → Device S × List Effect
  unfolding append_put_file_chunk fail_chunk file_chunk_stored
  store_file_chunk decode cap accept ctx idx total text d =
      let (d', failure) = append_put_file_chunk decode cap text d in
      elim failure [
        | none ↦ file_chunk_stored accept ctx idx total d'
        | some reason ↦ fail_chunk reason d'
      ]

  -- `handlePutFile` with the arguments that its first test lets through.
  unfoldable pub accept_file_chunk :
      Decode
      → ℕ
      → StagedFileCheck S
      → Context
      → List ℕ
      → ℕ
      → ℕ
      → List ℕ
      → Device S
      → Device S × List Effect
  unfolding begin_put_file continues_put_file store_file_chunk fail_chunk
  accept_file_chunk decode cap accept ctx path idx total text d =
      let (begun, opened) = begin_put_file ctx path total d in
      if idx == 0
      then (if opened
          then store_file_chunk decode cap accept ctx idx total text begun
          else (begun, reply_error open_failed ∷ []))
      else if continues_put_file path idx d
      then store_file_chunk decode cap accept ctx idx total text d
      else fail_chunk out_of_sequence d

  unfoldable pub handle_put_file :
      Decode → ℕ → StagedFileCheck S → Context → FileCommand → Device S → Device S × List Effect
  handle_put_file decode cap accept ctx cmd d = elim cmd.path [
    | none ↦ fail_chunk bad_args d
    | some path ↦ elim cmd.data_text [
      | none ↦ fail_chunk bad_args d
      | some text ↦
          if not (is_path_safe (some path)) || ((cmd.total == 0) || leb cmd.total cmd.idx)
          then fail_chunk bad_args d
          else accept_file_chunk decode cap accept ctx path cmd.idx cmd.total text d
    ]
  ]
