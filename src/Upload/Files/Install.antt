-- ===== src/Upload/Files/Install.antt =====
-- The file that a successful PUT_FILE leaves, src/hal/usb/usb_dispatch_files.cpp with the test of a staged
-- signals file of src/config/config_signals_file.inc.
use canshift_firmware.Prelude.{ℕ, ◌≡◌, Bool, true, Option, some, List, if◌then◌else◌}
use canshift_firmware.Storage.FileSystem.{Spiffs}
use canshift_firmware.Upload.{str_eq, signals_path}
use canshift_firmware.Upload.Signals.{Json}
use canshift_firmware.Upload.Signals.Carried.{carried, current_out, is_clean}
use canshift_firmware.Upload.Files.Answer.{Told}

-- What the last chunk installs: the bytes told; of the signals file, whose contents before are given, the
-- bytes with that file's `out` block when they have none.
abbrev pub expected : Json → Option (List ℕ) → Told → Option (List ℕ)
expected json current told =
    if str_eq told.path signals_path
    then carried json (current_out json current) told.received
    else some told.received

-- An upload of the signals file is taken only when the loader takes it whole.
abbrev pub is_taken : Json → Told → Bool
is_taken json told = if str_eq told.path signals_path then is_clean json told.received else true

-- The files that have contents exist.
abbrev pub FindsFiles : Spiffs → Type 0
FindsFiles S = (fs : S.Fs) (p bytes : List ℕ) → S.content fs p ≡ some bytes → S.exists fs p ≡ true
