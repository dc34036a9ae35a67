-- ===== src/Upload.antt =====
-- src/hal/usb/usb_dispatch_config_chunk.cpp, usb_dispatch_files.cpp and usb_signals_upload.cpp: the
-- two chunked transfers of the host, PUT_CONFIG_CHUNK and PUT_FILE, over one chunked write, and the test
-- of a staged signals file in src/config/config_signals_file.inc, which PUT_FILE hands to the end of the
-- chunked write. The Base64 decoder and the JSON library are arguments; replies and requests to other
-- tasks are values.
pub mod Paths
pub mod Signals
pub mod Files
pub mod Config
pub mod Mixed
use canshift_firmware.Prelude.{
  ℕ, zero, suc, ◌+◌, Bool, true, false, not, ◌&&◌, ◌||◌, Option, none, some, List, [], ◌∷◌, ◌++◌,
  if◌then◌else◌, ltb, leb, ◌==◌, ◌!=◌, length, take, sub32, add32, get_or,
}
use canshift_firmware.Storage.FileSystem.{Spiffs}
use canshift_firmware.Storage.Chunks.{
  Storage, ChunkCommit, committed, rejected, failed, abort_chunked_write,
  begin_chunked_write_atomic, append_chunk, end_chunked_write, end_chunked_write_checked,
}

abbrev pub config_max_bytes : ℕ
config_max_bytes = 65536

abbrev pub file_max_bytes : ℕ
file_max_bytes = 131072

abbrev pub idle_timeout_ms : ℕ
idle_timeout_ms = 10000

abbrev pub config_chunk_max_raw : ℕ
config_chunk_max_raw = 1024

-- `kConfigPathDashboard`, "/config/dashboard.json".
abbrev pub dashboard_path : List ℕ
dashboard_path =
    47 ∷ 99 ∷ 111 ∷ 110 ∷ 102 ∷ 105 ∷ 103 ∷ 47 ∷ 100 ∷ 97 ∷ 115 ∷ 104 ∷ 98 ∷ 111 ∷ 97 ∷ 114 ∷ 100
    ∷ 46 ∷ 106 ∷ 115 ∷ 111 ∷ 110 ∷ []

-- `kConfigPathSignals`, "/config/signals.json".
abbrev pub signals_path : List ℕ
signals_path =
    47 ∷ 99 ∷ 111 ∷ 110 ∷ 102 ∷ 105 ∷ 103 ∷ 47 ∷ 115 ∷ 105 ∷ 103 ∷ 110 ∷ 97 ∷ 108 ∷ 115 ∷ 46 ∷ 106
    ∷ 115 ∷ 111 ∷ 110 ∷ []

-- `strcmp(a, b) == 0`
abbrev pub str_eq : List ℕ → List ℕ → Bool
str_eq [] [] = true
str_eq [] (b ∷ bs) = false
str_eq (a ∷ rest) [] = false
str_eq (a ∷ rest) (b ∷ bs) = (a == b) && str_eq rest bs

pub data Failure : Type 0 where
  bad_args too_large open_failed out_of_sequence b64_decode write_failed invalid_signals : Failure

pub data Effect : Type 0 where
  reply_ok : Effect
  reply_error : Failure → Effect
  burn_overlay_show burn_overlay_error config_reload reboot : Effect

-- What a command is handled with: its sender, and the clock when a transfer begins and when a chunk
-- has been stored.
pub record Context : Type 0 where
  pub from_socket : Bool
  pub started : ℕ
  pub stored : ℕ

pub record ConfigChunk : Type 0 where
  pub total : ℕ
  pub expected_idx : ℕ
  pub last_activity_ms : ℕ
  pub declared_bytes : ℕ
  pub written_bytes : ℕ
  pub first_byte : ℕ
  pub last_byte : ℕ
  pub is_open : Bool
  pub from_socket : Bool

abbrev pub no_config_chunk : ConfigChunk
no_config_chunk = record {
  total = 0;
  expected_idx = 0;
  last_activity_ms = 0;
  declared_bytes = 0;
  written_bytes = 0;
  first_byte = 0;
  last_byte = 0;
  is_open = false;
  from_socket = false;
}

pub record ChunkTransfer : Type 0 where
  pub path : List ℕ
  pub expected_idx : ℕ
  pub total : ℕ
  pub last_activity_ms : ℕ
  pub written_bytes : ℕ
  pub from_socket : Bool

-- The device: the shared chunked write, and the state of each of the two transfers.
pub record Device (S : Spiffs) : Type 0 where
  pub storage : Storage S
  pub config : ConfigChunk
  pub file : ChunkTransfer

-- Base64 into a buffer of the given size; `none` is an error.
abbrev pub Decode : Type 0
Decode = ℕ → List ℕ → Option (List ℕ)

-- The fields of PUT_CONFIG_CHUNK; a number that is absent is 0, a text that is absent `none`.
pub record ConfigCommand : Type 0 where
  pub total : ℕ
  pub idx : ℕ
  pub bytes : ℕ
  pub data_text : Option (List ℕ)

pub record FileCommand : Type 0 where
  pub path : Option (List ℕ)
  pub total : ℕ
  pub idx : ℕ
  pub data_text : Option (List ℕ)
