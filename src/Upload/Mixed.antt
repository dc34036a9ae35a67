-- ===== src/Upload/Mixed.antt =====
-- PUT_FILE and PUT_CONFIG_CHUNK each keep a transfer of their own, and share the one chunked write of
-- src/hal/storage/storage_driver.cpp: what the one does to a transfer of the other.
use canshift_firmware.Prelude.{
  ℕ, ◌+◌, ◌<◌, ◌≡◌, ◌≢◌, inl, inr, refl, ap, ◌∙◌, subst, sym, true, none, some, List, [], ◌++◌, ltb,
  length, arith, Bool-cases, Option-cases, ne→==,
}
use canshift_firmware.Storage.FileSystem.{Spiffs}
use canshift_firmware.Storage.{tmp_suffix, bak_suffix, cfg_max_path_len}
use canshift_firmware.Storage.Chunks.{StagedFileCheck}
use canshift_firmware.Storage.Chunks.Stream.{
  IsStream, append-IsStream, end_placed, end_other, append_chunk_other,
}
use canshift_firmware.Upload.{
  Device, Context, ConfigCommand, Decode, str_eq, dashboard_path, config_chunk_max_raw,
}
use canshift_firmware.Upload.Config.{
  append_config_chunk, commit_config_chunk, continues_config_chunk, store_config_chunk,
  accept_config_chunk, handle_put_config_chunk,
}
use canshift_firmware.Upload.Config.Transfer.{append_lem, bytes_or_none, last_or-append}
use canshift_firmware.Upload.Paths.{is_path_safe, is_path_safe_lem}
use canshift_firmware.Upload.Config.{last_or}
use canshift_firmware.Upload.Files.{handle_put_file}
use canshift_firmware.Upload.Files.Transfer.{bytes_of}
use canshift_firmware.Upload.Files.History.{handle-Answers}
use canshift_firmware.Upload.{FileCommand, out_of_sequence, bad_args}
use canshift_firmware.Upload.Config.Install.{requests_reload, commit_lem, fail_lem}

-- The last character tells a staged or backed-up path from the dashboard's.
tmp_ne_dashboard : (p : List ℕ) → dashboard_path ≢ p ++ tmp_suffix
tmp_ne_dashboard p e =
    absurd (ground (arith, ap (λ l. last_or l 0) e, last_or-append p tmp_suffix 0))

bak_ne_dashboard : (p : List ℕ) → dashboard_path ≢ p ++ bak_suffix
bak_ne_dashboard p e =
    absurd (ground (arith, ap (λ l. last_or l 0) e, last_or-append p bak_suffix 0))

safe_ne_dashboard : (p : List ℕ) → is_path_safe (some p) ≡ true → dashboard_path ≢ p
safe_ne_dashboard p safe e =
    absurd (ground (arith, (is_path_safe_lem p safe).3, ap (λ q. str_eq q dashboard_path) e))

-- The dashboard file is as it was, and the other file has these bytes.
pub record IsMixed (S : Spiffs) (path bytes : List ℕ) (before after : S.Fs) : Type 0 where
  pub file : S.content after path ≡ some bytes
  pub dashboard : S.content after dashboard_path ≡ S.content before dashboard_path

module _ {S : Spiffs} where
  commit-IsMixed :
      (path bytes : List ℕ) (d : Device S)
      → is_path_safe (some path) ≡ true
      → length path < cfg_max_path_len
      → IsStream path bytes d.storage
      → requests_reload (commit_config_chunk d).1 ≡ true
      → IsMixed S path bytes d.storage.fs (commit_config_chunk d).0.storage.fs
  commit-IsMixed path bytes d safe b v e =
      let done = commit_lem d e in
      record {
        file = ap (λ fs. S.content fs path) done.2 ∙ end_placed path bytes d.storage b v done.1;
        dashboard =
            ap (λ fs. S.content fs dashboard_path) done.2
            ∙ end_other path bytes dashboard_path d.storage b v (tmp_ne_dashboard path)
                (safe_ne_dashboard path safe) (bak_ne_dashboard path);
      }

  b64_refused :
      (decode : Decode) (ctx : Context) (text : List ℕ) (idx : ℕ) (d : Device S)
      → decode config_chunk_max_raw text ≡ none
      → (append_config_chunk decode ctx text idx d).1 ≢ none
  unfolding append_config_chunk
  b64_refused decode ctx text idx d n f = ground arith

  store_splits :
      (decode : Decode) (ctx : Context) (idx total : ℕ) (text : List ℕ) (d : Device S)
      → (append_config_chunk decode ctx text idx d).1 ≡ none
      → requests_reload (store_config_chunk decode ctx idx total text d).1 ≡ true
      → store_config_chunk decode ctx idx total text d
        ≡ commit_config_chunk (append_config_chunk decode ctx text idx d).0
  unfolding store_config_chunk
  store_splits decode ctx idx total text d f e = elim (Bool-cases (ltb (idx + 1) total)) [
    | inl more ↦ absurd (ground arith)
    | inr last ↦ rw (f, store_config_chunk) (rw last refl)
  ]

  -- The last chunk of a configuration whose stream another file has taken over.
  store-IsMixed :
      (decode : Decode) (ctx : Context) (idx total : ℕ) (text path old : List ℕ) (d : Device S)
      → is_path_safe (some path) ≡ true
      → length path < cfg_max_path_len
      → IsStream path old d.storage
      → requests_reload (store_config_chunk decode ctx idx total text d).1 ≡ true
      → IsMixed S path
          (old ++ bytes_or_none (decode config_chunk_max_raw text))
          d.storage.fs
          (store_config_chunk decode ctx idx total text d).0.storage.fs
  unfolding store_config_chunk
  store-IsMixed decode ctx idx total text path old d safe b v e =
      let d' = (append_config_chunk decode ctx text idx d).0 in
      elim (Option-cases (append_config_chunk decode ctx text idx d).1) [
        | inr (reason, f) ↦ absurd (ground (arith, fail_lem reason d'))
        | inl f ↦ elim (Option-cases (decode config_chunk_max_raw text)) [
          | inl n ↦ absurd (b64_refused decode ctx text idx d n f)
          | inr (bytes, k) ↦
              let done = append_lem decode ctx text bytes idx d k f in
              let grown = append-IsStream path old bytes d.storage v done.0 in
              let changed = store_splits decode ctx idx total text d f e in
              let d' = (append_config_chunk decode ctx text idx d).0 in
              let grown' : IsStream path (old ++ bytes) d'.storage =
                subst (λ x. IsStream path (old ++ bytes) x.storage) (sym done.1) grown in
              let mixed =
                commit-IsMixed path (old ++ bytes) d' safe b grown'
                  (sym (ap (λ r. requests_reload r.1) changed) ∙ e) in
              rw (changed, k)
                (record {
                  file = mixed.file;
                  dashboard =
                      mixed.dashboard
                      ∙ (ap (λ x. S.content x.storage.fs dashboard_path) done.1
                          ∙ append_chunk_other bytes dashboard_path d.storage
                              (λ h. tmp_ne_dashboard path (sym h ∙ v.file)));
                })
        ]
      ]

  accept_splits :
      (decode : Decode) (ctx : Context) (cmd : ConfigCommand) (text : List ℕ) (d : Device S)
      → cmd.idx ≢ 0
      → requests_reload (accept_config_chunk decode ctx cmd text d).1 ≡ true
      → accept_config_chunk decode ctx cmd text d
        ≡ store_config_chunk decode ctx cmd.idx cmd.total text d
  unfolding accept_config_chunk
  accept_splits decode ctx cmd text d n e =
      elim (Bool-cases (continues_config_chunk cmd.idx cmd.total d)) [
        | inr k ↦ absurd (ground (arith, fail_lem out_of_sequence d, ne→== cmd.idx 0 n))
        | inl k ↦ rw (ne→== cmd.idx 0 n, accept_config_chunk) (rw k refl)
      ]

  handle_splits :
      (decode : Decode) (ctx : Context) (cmd : ConfigCommand) (text : List ℕ) (d : Device S)
      → cmd.data_text ≡ some text
      → requests_reload (handle_put_config_chunk decode ctx cmd d).1 ≡ true
      → handle_put_config_chunk decode ctx cmd d ≡ accept_config_chunk decode ctx cmd text d
  unfolding handle_put_config_chunk
  handle_splits decode ctx cmd text d k e = ground (arith, fail_lem bad_args d)

  -- A PUT_FILE chunk of index 0 that leaves the stream open for a safe path, followed by a
  -- PUT_CONFIG_CHUNK of another index that is answered with a reload of the configuration: the file's
  -- path then holds the file's bytes and behind them the configuration chunk's, and the dashboard is
  -- still the one from between the two commands.
  pub reload-IsMixed :
      (decode : Decode) (cap : ℕ) (accept : StagedFileCheck S) (ctx later : Context)
      (path data_text text : List ℕ) (total : ℕ) (cmd : ConfigCommand) (d : Device S)
      → let opened =
          (handle_put_file decode cap accept ctx
            (record { path = some path; total = total; idx = 0; data_text = some data_text })
            d).0 in
        is_path_safe (some path) ≡ true
        → opened.storage.chunk_open ≡ true
        → cmd.idx ≢ 0
        → cmd.data_text ≡ some text
        → requests_reload (handle_put_config_chunk decode later cmd opened).1 ≡ true
        → IsMixed S path
            (bytes_of decode cap data_text ++ bytes_or_none (decode config_chunk_max_raw text))
            opened.storage.fs
            (handle_put_config_chunk decode later cmd opened).0.storage.fs
  reload-IsMixed decode cap accept ctx later path data_text text total cmd d safe o n k e =
      let file : FileCommand = record {
        path = some path;
        total = total;
        idx = 0;
        data_text = some data_text;
      } in
      let opened = (handle_put_file decode cap accept ctx file d).0 in
      let v =
        (handle-Answers decode cap accept ctx file (record { path = []; received = [] }) d
            (λ h. absurd (h refl))).going
          o in
      let whole = handle_splits decode later cmd text opened k e in
      let accepted = sym (ap (λ r. requests_reload r.1) whole) ∙ e in
      let stored = accept_splits decode later cmd text opened n accepted in
      rw (whole, stored)
        (store-IsMixed decode later cmd.idx cmd.total text path (bytes_of decode cap data_text)
          opened safe v.fits v.stream (sym (ap (λ r. requests_reload r.1) stored) ∙ accepted))
