-- ===== src/Upload/Config/Install.antt =====
-- Which configuration src/hal/usb/usb_dispatch_config_chunk.cpp installs, while no other transfer
-- uses the chunked write.
use canshift_firmware.Prelude.{
  ℕ, ◌+◌, ◌≤◌, ◌≡◌, inl, inr, refl, ap, ◌∙◌, sym, subst, Bool, true, false, some, List, [], ◌∷◌,
  ◌++◌, ltb, length, get_or, Bool-cases, Option-cases, arith, ==_iff,
}
use canshift_firmware.Storage.FileSystem.{Spiffs}
use canshift_firmware.Storage.Chunks.{end_chunked_write}
use canshift_firmware.Storage.Chunks.Stream.{end_placed}
use canshift_firmware.Upload.{
  Device, ConfigChunk, Context, Decode, Failure, Effect, ConfigCommand, reply_ok, reply_error,
  burn_overlay_show, burn_overlay_error, config_reload, reboot, config_max_bytes,
  config_chunk_max_raw, dashboard_path,
}
use canshift_firmware.Upload.Config.{
  last_or, received_config_looks_complete, abort_config_chunk, fail_config_chunk, open_config_chunk,
  begin_config_chunk, append_config_chunk, commit_config_chunk, store_config_chunk,
  accept_config_chunk,
}
use canshift_firmware.Upload.Config.Transfer.{
  IsTransfer, bytes_or_none, append-IsTransfer, begin-IsTransfer,
}

-- `PendingActions::requestConfigReload` is among the effects.
abbrev pub requests_reload : List Effect → Bool
requests_reload [] = false
requests_reload (config_reload ∷ es) = true
requests_reload (reply_ok ∷ es) = requests_reload es
requests_reload (reply_error r ∷ es) = requests_reload es
requests_reload (burn_overlay_show ∷ es) = requests_reload es
requests_reload (burn_overlay_error ∷ es) = requests_reload es
requests_reload (reboot ∷ es) = requests_reload es

requests_reload-append :
    (xs ys : List Effect)
    → requests_reload xs ≡ false
    → requests_reload (xs ++ ys) ≡ requests_reload ys
requests_reload-append [] ys e = refl
requests_reload-append (config_reload ∷ xs) ys e = absurd (ground arith)
requests_reload-append (reply_ok ∷ xs) ys e = requests_reload-append xs ys e
requests_reload-append (reply_error r ∷ xs) ys e = requests_reload-append xs ys e
requests_reload-append (burn_overlay_show ∷ xs) ys e = requests_reload-append xs ys e
requests_reload-append (burn_overlay_error ∷ xs) ys e = requests_reload-append xs ys e
requests_reload-append (reboot ∷ xs) ys e = requests_reload-append xs ys e

complete_lem :
    (t : ConfigChunk)
    → received_config_looks_complete t ≡ true
    → (t.written_bytes ≡ t.declared_bytes) × (t.first_byte ≡ 123) × (t.last_byte ≡ 125)
unfolding received_config_looks_complete
complete_lem t e = ground arith

module _ {S : Spiffs} where
  -- The dashboard file holds exactly these bytes, as many as were announced, which begin with `{` and
  -- end with `}`.
  pub record IsInstalled (received : List ℕ) (declared : ℕ) (d : Device S) : Type 0 where
    pub placed : S.content d.storage.fs dashboard_path ≡ some received
    pub whole : length received ≡ declared
    pub within : declared ≤ config_max_bytes
    pub opens : get_or received 0 0 ≡ 123
    pub closes : last_or received 0 ≡ 125

  -- What a handler leaves: an open transfer has stored the bytes, and a reload is requested only with
  -- the bytes in place.
  pub record Answers (received : List ℕ) (declared : ℕ) (out : Device S × List Effect)
      : Type 0 where
    pub going :
        out.0.config.is_open ≡ true
        → IsTransfer received out.0 × (out.0.config.declared_bytes ≡ declared)
    pub installed : requests_reload out.1 ≡ true → IsInstalled received declared out.0

  commit_closes : (d : Device S) → (commit_config_chunk d).0.config.is_open ≡ false
  unfolding commit_config_chunk
  commit_closes d = refl

  pub commit_lem :
      (d : Device S)
      → requests_reload (commit_config_chunk d).1 ≡ true
      → (received_config_looks_complete d.config ≡ true)
        × ((end_chunked_write d.storage).1 ≡ true)
        × ((commit_config_chunk d).0.storage.fs ≡ (end_chunked_write d.storage).0.fs)
  unfolding commit_config_chunk
  commit_lem d e = ground arith

  commit-Answers :
      (received : List ℕ) (d : Device S)
      → IsTransfer received d
      → Answers received d.config.declared_bytes (commit_config_chunk d)
  commit-Answers received d v = record {
    going = λ e. absurd (ground (arith, commit_closes d));
    installed = λ e.
        let done = commit_lem d e in
        let whole = complete_lem d.config done.0 in
        record {
          placed =
              ap (λ fs. S.content fs dashboard_path) done.2
              ∙ end_placed dashboard_path received d.storage (omega arith) v.stream done.1;
          whole = sym v.tally.count ∙ whole.0;
          within = v.bound;
          opens = sym (v.tally.first (omega (arith, whole.1))) ∙ whole.1;
          closes = sym v.tally.last ∙ whole.2;
        };
  }

  pub fail_lem :
      (reason : Failure) (d : Device S)
      → ((fail_config_chunk reason d).0.config.is_open ≡ false)
        × (requests_reload (fail_config_chunk reason d).1 ≡ false)
  unfolding fail_config_chunk
  fail_lem reason d = ground arith

  pub fail_config_chunk-Answers :
      (reason : Failure) (received : List ℕ) (declared : ℕ) (d : Device S)
      → Answers received declared (fail_config_chunk reason d)
  fail_config_chunk-Answers reason received declared d = record {
    going = λ e. absurd (ground (arith, fail_lem reason d));
    installed = λ e. absurd (ground (arith, fail_lem reason d));
  }

  pub store-Answers :
      (decode : Decode) (ctx : Context) (idx total : ℕ) (text received : List ℕ) (d : Device S)
      → IsTransfer received d
      → (idx ≡ 0 → received ≡ [])
      → Answers
          (received ++ bytes_or_none (decode config_chunk_max_raw text))
          d.config.declared_bytes
          (store_config_chunk decode ctx idx total text d)
  unfolding store_config_chunk
  store-Answers decode ctx idx total text received d v z =
      let d' = (append_config_chunk decode ctx text idx d).0 in
      elim (Option-cases (append_config_chunk decode ctx text idx d).1) [
        | inr (reason, e) ↦ rw (e, store_config_chunk) (fail_config_chunk-Answers reason _ _ d')
        | inl e ↦
            let grown = append-IsTransfer decode ctx text idx received d v z e in
            rw (e, store_config_chunk)
              (elim (Bool-cases (ltb (idx + 1) total)) [
                | inl more ↦
                    rw more (record { going = λ o. grown; installed = λ o. absurd (ground arith) })
                | inr last ↦ rw last (
                    subst
                      (λ n.
                        Answers (received ++ bytes_or_none (decode config_chunk_max_raw text)) n
                          (commit_config_chunk d'))
                      grown.1 (commit-Answers _ d' grown.0))
              ])
      ]

  pub abort_lem :
      (d : Device S)
      → ((abort_config_chunk d).0.config.is_open ≡ false)
        × (requests_reload (abort_config_chunk d).1 ≡ false)
  unfolding abort_config_chunk
  abort_lem d = ground arith

  open_quiet :
      (ctx : Context) (declared total : ℕ) (d : Device S)
      → d.config.is_open ≡ false
      → (requests_reload (open_config_chunk ctx declared total d).1 ≡ false)
        × ((open_config_chunk ctx declared total d).2 ≡ false
            → (open_config_chunk ctx declared total d).0.config.is_open ≡ false)
  unfolding open_config_chunk
  open_quiet ctx declared total d e = (ground arith, λ f. ground arith)

  begin_quiet :
      (ctx : Context) (declared total : ℕ) (d : Device S)
      → (requests_reload (begin_config_chunk ctx declared total d).1 ≡ false)
        × ((begin_config_chunk ctx declared total d).2 ≡ false
            → (begin_config_chunk ctx declared total d).0.config.is_open ≡ false)
  unfolding begin_config_chunk
  begin_quiet ctx declared total d =
      let idle = abort_config_chunk d in
      let quiet = open_quiet ctx declared total idle.0 (abort_lem d).0 in
      (
        requests_reload-append idle.1 (open_config_chunk ctx declared total idle.0).1
              (abort_lem d).1
            ∙ quiet.0,
        quiet.1,
      )

  Answers-behind :
      (received : List ℕ) (declared : ℕ) (before : List Effect) (out : Device S × List Effect)
      → requests_reload before ≡ false
      → Answers received declared out
      → Answers received declared (out.0, before ++ out.1)
  Answers-behind received declared before out e v = record {
    going = v.going;
    installed = λ f. v.installed (sym (requests_reload-append before out.1 e) ∙ f);
  }

  pub first-Answers :
      (decode : Decode) (ctx : Context) (cmd : ConfigCommand) (text : List ℕ) (d : Device S)
      → cmd.idx ≡ 0
      → Answers
          (bytes_or_none (decode config_chunk_max_raw text))
          cmd.bytes
          (accept_config_chunk decode ctx cmd text d)
  unfolding accept_config_chunk
  first-Answers decode ctx cmd text d z =
      let begun = begin_config_chunk ctx cmd.bytes cmd.total d in
      let quiet = begin_quiet ctx cmd.bytes cmd.total d in
      rw ((==_iff cmd.idx 0).1 z, accept_config_chunk)
        (elim (Bool-cases begun.2) [
          | inr e ↦ rw e (record {
            going = λ o. absurd (ground (arith, quiet.1 e));
            installed = λ o. absurd (ground (arith, quiet.0));
          })
          | inl e ↦
              let start = begin-IsTransfer ctx cmd.bytes cmd.total d e in
              rw e (
                Answers-behind _ _ begun.1 _ quiet.0 (
                  subst
                    (λ n.
                      Answers (bytes_or_none (decode config_chunk_max_raw text)) n
                        (store_config_chunk decode ctx cmd.idx cmd.total text begun.0))
                    start.1
                    (store-Answers decode ctx cmd.idx cmd.total text [] begun.0 start.0
                      (λ h. refl))))
        ])
