-- ===== src/Upload/Signals.antt =====
-- The test of a staged signals file, src/config/config_signals_file.inc, which carries the current file's
-- `out` block into an upload that has none. ArduinoJson and the test of a parsed document
-- (`parseSignalsDocument` of src/config/config_signals_loader.inc) are arguments; log lines and the error
-- store are left out.
pub mod Carried
use canshift_firmware.Prelude.{
  ℕ, Bool, true, false, not, Option, none, some, List, [], ◌∷◌, if◌then◌else◌,
}
use canshift_firmware.Storage.FileSystem.{Spiffs}
use canshift_firmware.Storage.{write_file_atomic}
use canshift_firmware.Upload.{signals_path}

-- What is used of ArduinoJson. A call that allocates may fail; the number of the parsing tells the parsings of
-- one test apart, since the heap differs between them.
pub record Json : Type 1 where
  pub Doc : Type 0
  pub Out : Type 0
  pub parse : ℕ → List ℕ → Option Doc
  -- `parseSignalsDocument` answers `Verdict::Ok`
  pub clean : Doc → Bool
  -- `doc["out"]`, `none` when it is null
  pub out : Doc → Option Out
  pub copy_out : Out → Option Out
  pub set_out : Doc → Out → Option Doc
  -- `JsonWriter` into a buffer of the measured length
  pub print : Doc → Option (List ℕ)

module _ (json : Json) where
  module _ (S : Spiffs) where
    unfoldable pub parse_json_file : ℕ → List ℕ → S.Fs → Option json.Doc
    parse_json_file n path fs = elim (S.content fs path) [
      | none ↦ none
      | some bytes ↦ json.parse n bytes
    ]

    -- `clean(inspectSignalsFile(path))`
    unfoldable pub inspects_clean : List ℕ → S.Fs → Bool
    unfolding parse_json_file
    inspects_clean [] fs = false
    inspects_clean (c ∷ path) fs =
        if not (S.exists fs (c ∷ path))
        then false
        else elim (parse_json_file 0 (c ∷ path) fs) [ none ↦ false | some doc ↦ json.clean doc ]

    unfoldable pub read_current_out : S.Fs → Option json.Out
    unfolding parse_json_file
    read_current_out fs =
        if not (S.exists fs signals_path) then none else elim (parse_json_file 1 signals_path fs) [
          | none ↦ none
          | some current ↦ elim (json.out current) [ none ↦ none | some out ↦ json.copy_out out ]
        ]

    unfoldable pub write_document : List ℕ → json.Doc → S.Fs → S.Fs × Bool
    write_document path doc fs = elim (json.print doc) [
      | none ↦ (fs, false)
      | some bytes ↦ write_file_atomic S path bytes fs
    ]

    unfoldable pub merge_current_out : List ℕ → json.Out → S.Fs → S.Fs × Bool
    unfolding parse_json_file write_document
    merge_current_out path out fs = elim (parse_json_file 2 path fs) [
      | none ↦ (fs, false)
      | some staged ↦ elim (json.out staged) [
        | some own ↦ (fs, true)
        | none ↦ elim (json.set_out staged out) [
          | none ↦ (fs, false)
          | some merged ↦ write_document path merged fs
        ]
      ]
    ]

    unfoldable pub keep_current_out : List ℕ → S.Fs → S.Fs × Bool
    unfolding read_current_out merge_current_out
    keep_current_out path fs = elim (read_current_out fs) [
      | none ↦ (fs, true)
      | some out ↦ merge_current_out path out fs
    ]

    unfoldable pub accept_signals_upload : S.Fs → List ℕ → S.Fs × Bool
    unfolding inspects_clean keep_current_out
    accept_signals_upload fs path =
        if inspects_clean path fs then keep_current_out path fs else (fs, false)
