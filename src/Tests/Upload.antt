-- ===== src/Tests/Upload.antt =====
-- The transfers of src/hal/usb on a device with two files and with chunks of two bytes.
use canshift_firmware.Prelude.{
  ℕ, refl, Bool, true, false, Option, none, some, List, [], ◌∷◌, ◌++◌, ◌==◌, if◌then◌else◌, leb,
  length, arith,
}
use canshift_firmware.Storage.{
  finalize, tmp_suffix, bak_suffix, cfg_max_path_len, build_suffixed_path, swap_in,
  drop_stale_backup, promote_tmp,
}
use canshift_firmware.Storage.Swap.{IsSwap, finalize-IsSwap}
use canshift_firmware.Storage.Chunks.{
  begin_chunked_write_atomic, append_chunk, end_chunked_write, abort_chunked_write, open_staged,
}
use canshift_firmware.Upload.{
  Device, Decode, Context, ConfigCommand, FileCommand, no_config_chunk, dashboard_path,
  signals_path, str_eq,
}
use canshift_firmware.Upload.Paths.{is_path_safe, assets_prefix}
use canshift_firmware.Upload.Config.{
  handle_put_config_chunk, accept_config_chunk, store_config_chunk, append_config_chunk,
  commit_config_chunk, begin_config_chunk, open_config_chunk, continues_config_chunk,
  record_config_bytes,
}
use canshift_firmware.Upload.Config.Install.{IsInstalled}
use canshift_firmware.Upload.Files.{handle_put_file, accept_file_chunk}
use canshift_firmware.Upload.Mixed.{IsMixed, reload-IsMixed}
use canshift_firmware.Upload.Signals.{Json}
use canshift_firmware.Tests.Platform.{flat}
use canshift_firmware.Upload.Config.History as ConfigHistory
use canshift_firmware.Upload.Files.History as FilesHistory

-- Text that is its own decoding.
abbrev raw : Decode
raw cap text = if leb (length text) cap then some text else none

abbrev ctx : Context
ctx = record { from_socket = false; started = 1000; stored = 1100 }

-- The dashboard holds "{}", and "/assets/a" does not exist.
abbrev old_files : flat.Fs
old_files p = if str_eq p dashboard_path then some (123 ∷ 125 ∷ []) else none

abbrev asset : List ℕ
asset = assets_prefix ++ 97 ∷ []

abbrev fresh : Device flat
fresh = record {
  storage = record {
    fs = old_files;
    file = [];
    chunk_open = false;
    atomic = false;
    atomic_path = [];
    actual_path = [];
  };
  config = no_config_chunk;
  file = record {
    path = [];
    expected_idx = 0;
    total = 0;
    last_activity_ms = 0;
    written_bytes = 0;
    from_socket = false;
  };
}

abbrev first_config : ConfigCommand
first_config = record { total = 2; idx = 0; bytes = 4; data_text = some (123 ∷ 34 ∷ []) }

abbrev last_config : ConfigCommand
last_config = record { total = 2; idx = 1; bytes = 0; data_text = some (34 ∷ 125 ∷ []) }

abbrev config_events : List ConfigHistory.Event
config_events = ConfigHistory.chunk ctx first_config ∷ ConfigHistory.tick 2000 ∷ []

reload-IsInstalled_example :
    IsInstalled
      (123 ∷ 34 ∷ 34 ∷ 125 ∷ [])
      4
      (handle_put_config_chunk raw ctx last_config (ConfigHistory.run raw config_events fresh)).0
unfolding handle_put_config_chunk accept_config_chunk
    canshift_firmware.Upload.Config.tick_config_chunk_timeout begin_chunked_write_atomic
    canshift_firmware.Storage.ensure_parent_dirs build_suffixed_path open_staged append_chunk
    record_config_bytes end_chunked_write finalize
reload-IsInstalled_example =
    ConfigHistory.reload-IsInstalled raw config_events ctx last_config
      (record { received = []; declared = 0 }) fresh refl refl

abbrev first_file : FileCommand
first_file = record { path = some asset; total = 2; idx = 0; data_text = some (1 ∷ 2 ∷ []) }

abbrev last_file : FileCommand
last_file = record { path = some asset; total = 2; idx = 1; data_text = some (3 ∷ []) }

abbrev any : flat.Fs → List ℕ → flat.Fs × Bool
any fs p = (fs, true)

-- A JSON library whose documents are their text; an `out` block is a 7 and a number at the front.
abbrev block : List ℕ → Option ℕ
block [] = none
block (c ∷ []) = none
block (c ∷ n ∷ rest) = if c == 7 then some n else none

abbrev texts : Json
texts = record {
  Doc = List ℕ;
  Out = ℕ;
  parse = λ n bytes. some bytes;
  clean = λ doc. leb 1 (length doc);
  out = block;
  copy_out = λ n. some n;
  set_out = λ doc n. some (7 ∷ n ∷ doc);
  print = λ doc. some doc;
}

-- A signals file with an `out` block stands beside the dashboard.
abbrev stocked : Device flat
stocked = record fresh {
  storage = record {
    fs = λ p. if str_eq p signals_path then some (7 ∷ 9 ∷ 4 ∷ []) else old_files p;
    file = [];
    chunk_open = false;
    atomic = false;
    atomic_path = [];
    actual_path = [];
  };
}

abbrev first_signals : FileCommand
first_signals = record {
  path = some signals_path;
  total = 2;
  idx = 0;
  data_text = some (1 ∷ 2 ∷ []);
}

abbrev last_signals : FileCommand
last_signals = record { path = some signals_path; total = 2; idx = 1; data_text = some (3 ∷ []) }

abbrev signals_events : List FilesHistory.Event
signals_events = FilesHistory.chunk ctx first_signals ∷ FilesHistory.tick 2000 ∷ []

-- A configuration transfer that a file overtakes.
abbrev begun_config : Device flat
begun_config = (handle_put_config_chunk raw ctx first_config fresh).0

reload-IsMixed_example :
    IsMixed flat asset
      (1 ∷ 2 ∷ 34 ∷ 125 ∷ [])
      (handle_put_file raw 4 any ctx first_file begun_config).0.storage.fs
      (handle_put_config_chunk raw ctx last_config
        (handle_put_file raw 4 any ctx first_file begun_config).0).0.storage.fs
unfolding is_path_safe handle_put_file accept_file_chunk begin_chunked_write_atomic
    canshift_firmware.Storage.ensure_parent_dirs handle_put_config_chunk accept_config_chunk
    build_suffixed_path open_staged append_chunk abort_chunked_write record_config_bytes
    end_chunked_write finalize
reload-IsMixed_example =
    reload-IsMixed raw 4 any ctx ctx asset (1 ∷ 2 ∷ []) (34 ∷ 125 ∷ []) 2 last_config begun_config
      refl refl (λ e. absurd (omega arith)) refl refl

finalize-IsSwap_example :
    IsSwap flat
      (asset ++ tmp_suffix)
      asset
      (asset ++ bak_suffix)
      old_files
      (finalize flat asset old_files).0
      (finalize flat asset old_files).1
finalize-IsSwap_example = finalize-IsSwap flat asset old_files (omega arith)
