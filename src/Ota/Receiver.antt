-- ===== src/Ota/Receiver.antt =====
-- src/runtime/ota_receiver.cpp. The statics of the file are the record `Receiver`; the answers of
-- the ESP-IDF calls that one operation makes are its argument. `size_t` has 32 bits.
pub mod Probe
pub mod Inv
pub mod Feed
pub mod Begin
pub mod Commit
pub mod Complete
pub mod Handles
use canshift_firmware.Prelude.{
  ℕ, zero, suc, ◌+◌, ◌-◌, ◌*◌, Bool, true, false, not, ◌&&◌, ◌||◌, Option, none, some, List, [],
  ◌∷◌, ◌++◌, if◌then◌else◌, ltb, leb, ◌==◌, ◌!=◌, length, take, drop, get_or, replicate, add32,
}
use canshift_firmware.Ota.Crypto.{Crypto}
use canshift_firmware.Ota.Flash.{Partition, Call, opened, wrote, aborted, ended, boot_set}

abbrev pub esp_image_magic : ℕ
esp_image_magic = 0xe9

abbrev pub app_desc_magic : ℕ
app_desc_magic = 0xabcd5432

abbrev pub app_desc_offset : ℕ
app_desc_offset = 0x20

abbrev pub app_header_probe_bytes : ℕ
app_header_probe_bytes = 36

pub data State : Type 0 where
  idle receiving committed failed : State

pub data Error : Type 0 where
  no_ota_partition size_out_of_range ota_unsigned ota_bad_signature ota_begin_failed : Error
  sha_engine_failed not_receiving empty_chunk offset_mismatch overrun not_app_image : Error
  ota_write_failed incomplete sha256_mismatch ota_end_failed set_boot_failed : Error

-- `none` is `{true, nullptr}`.
abbrev pub BeginResult : Type 0
BeginResult = Option Error

-- The error, and `writtenTotal`.
pub record WriteResult : Type 0 where
  pub error : Option Error
  pub written_total : ℕ

pub record CommitResult : Type 0 where
  pub error : Option Error
  pub detail_code : ℕ

abbrev pub is_receiving : State → Bool
is_receiving receiving = true
is_receiving _ = false

-- `memcpy(buf + at, bytes, length bytes)`
abbrev pub memcpy : List ℕ → ℕ → List ℕ → List ℕ
memcpy buf at bytes = take at buf ++ (bytes ++ drop (at + length bytes) buf)

-- A little-endian `uint32_t` in memory.
abbrev pub word_at : List ℕ → ℕ → ℕ
word_at buf at =
    get_or buf at 0
    + 256 * get_or buf (at + 1) 0
    + 65536 * get_or buf (at + 2) 0
    + 16777216 * get_or buf (at + 3) 0

-- `esp_err_t` answers are 0 for ESP_OK; `esp_ota_begin` gives a handle or an error.
pub record BeginAnswers : Type 0 where
  pub partition : Option Partition
  pub handle : Option ℕ

pub record CommitAnswers : Type 0 where
  pub end_code : ℕ
  pub set_boot_code : ℕ

unfoldable pub bytes_eq : List ℕ → List ℕ → Bool
bytes_eq [] [] = true
bytes_eq [] (y ∷ ys) = false
bytes_eq (x ∷ xs) [] = false
bytes_eq (x ∷ xs) (y ∷ ys) = x == y && bytes_eq xs ys

pub record Receiver (c : Crypto) : Type 0 where
  pub state : State
  pub target : Option Partition
  pub handle : ℕ
  pub expected_size : ℕ
  pub written_size : ℕ
  pub sha : c.Sha
  pub expected_sha : List ℕ
  pub header_probe : List ℕ
  pub header_probe_len : ℕ
  pub signature : Option c.Verifier
  pub signed : Bool
  pub log : List Call

module _ {c : Crypto} where
  unfoldable pub capture_header_probe : List ℕ → Receiver c → Receiver c
  capture_header_probe bytes r =
      if leb app_header_probe_bytes r.header_probe_len
      then r
      else (let room = app_header_probe_bytes - r.header_probe_len in
          let taken = if ltb (length bytes) room then length bytes else room in
          record r {
            header_probe = memcpy r.header_probe r.header_probe_len (take taken bytes);
            header_probe_len = r.header_probe_len + taken;
          })

  unfoldable pub header_probe_rejects : Receiver c → Bool
  header_probe_rejects r =
      if ltb r.header_probe_len app_header_probe_bytes
      then false
      else if get_or r.header_probe 0 0 != esp_image_magic
      then true
      else word_at r.header_probe app_desc_offset != app_desc_magic

  -- `mbedtls_sha256_free` clears the context, as `mbedtls_sha256_init` does.
  unfoldable pub teardown_ota_handle : Receiver c → Receiver c
  teardown_ota_handle r = record r {
    log = if r.handle != 0 then aborted r.handle ∷ r.log else r.log;
    handle = 0;
    target = none;
    sha = c.sha_init;
    signature = none;
    expected_size = 0;
    written_size = 0;
    header_probe_len = 0;
  }

  unfoldable pub refuse_chunk : Error → Receiver c → Receiver c × WriteResult
  refuse_chunk reason r = (r, record { error = some reason; written_total = r.written_size })

  -- The total is read after the teardown has reset it.
  unfoldable pub abort_write : Error → Receiver c → Receiver c × WriteResult
  unfolding teardown_ota_handle
  abort_write reason r =
      let r' = teardown_ota_handle r in
      (
        record r' { state = failed },
        record { error = some reason; written_total = r'.written_size },
      )

  unfoldable pub fail_begin : Error → Receiver c → Receiver c × BeginResult
  fail_begin reason r = (record r { state = failed }, some reason)

  unfoldable pub start_session : Partition → ℕ → ℕ → List ℕ → Receiver c → Receiver c
  start_session target handle total expected_sha r = record r {
    target = some target;
    handle = handle;
    expected_size = total;
    written_size = 0;
    header_probe_len = 0;
    expected_sha = expected_sha;
    log = opened target handle ∷ r.log;
  }

  -- `startShaContext`: free, init, start.
  unfoldable pub start_sha_context : Receiver c → Option (Receiver c)
  start_sha_context r = elim (c.sha_starts c.sha_init) [
    | none ↦ none
    | some sha ↦ some (record r { sha = sha })
  ]

  -- The last steps of `begin`, on a session that has been started.
  unfoldable pub arm : Receiver c → Receiver c × BeginResult
  unfolding start_sha_context fail_begin teardown_ota_handle
  arm r = elim (start_sha_context r) [
    | none ↦ fail_begin sha_engine_failed (teardown_ota_handle r)
    | some armed ↦ (record armed { state = receiving }, none)
  ]

  -- `begin` from the call of `esp_ota_begin` on; without a partition it is not reached.
  unfoldable pub open_session :
      Option Partition → Option ℕ → ℕ → List ℕ → Receiver c → Receiver c × BeginResult
  unfolding fail_begin start_session arm
  open_session none handle total expected_sha r = fail_begin no_ota_partition r
  open_session (some target) none total expected_sha r = fail_begin ota_begin_failed r
  open_session (some target) (some handle) total expected_sha r =
      arm (start_session target handle total expected_sha r)

  module _ (allow_unsigned : Bool) where
    unfoldable pub start_signature : Option (List ℕ) → Receiver c → Receiver c × Option Error
    start_signature none r = (
      record r { signature = none; signed = false },
      if allow_unsigned then none else some ota_unsigned,
    )
    start_signature (some signature) r = elim (c.begin_release signature) [
      | none ↦ (record r { signature = none; signed = true }, some ota_bad_signature)
      | some v ↦ (record r { signature = some v; signed = true }, none)
    ]

    unfoldable pub refusal_for :
        Option Partition → ℕ → Option (List ℕ) → Receiver c → Receiver c × Option Error
    unfolding start_signature
    refusal_for none total signature r = (r, some no_ota_partition)
    refusal_for (some target) total signature r =
        if ltb total app_header_probe_bytes || ltb target.size total
        then (r, some size_out_of_range)
        else start_signature signature r

    -- `begin` once the previous session is gone.
    unfoldable pub begin_fresh :
        ℕ → List ℕ → Option (List ℕ) → BeginAnswers → Receiver c → Receiver c × BeginResult
    unfolding refusal_for fail_begin open_session
    begin_fresh total expected_sha signature answers r =
        let (r', refusal) = refusal_for answers.partition total signature r in
        elim refusal [
          | some reason ↦ fail_begin reason r'
          | none ↦ open_session answers.partition answers.handle total expected_sha r'
        ]

    unfoldable pub begin :
        ℕ → List ℕ → Option (List ℕ) → BeginAnswers → Receiver c → Receiver c × BeginResult
    unfolding begin_fresh teardown_ota_handle
    begin total expected_sha signature answers r =
        begin_fresh total expected_sha signature answers
          (if is_receiving r.state then teardown_ota_handle r else r)

    unfoldable pub signature_accepted : Receiver c → Bool
    signature_accepted r =
        if r.signed
        then elim r.signature [ none ↦ false | some v ↦ c.verifier_finish v ]
        else allow_unsigned

    unfoldable pub image_rejection : Receiver c → Option Error
    unfolding signature_accepted
    image_rejection r =
        if r.written_size != r.expected_size then some incomplete else elim (c.sha_finish r.sha) [
          | none ↦ some sha_engine_failed
          | some actual ↦
              if bytes_eq actual r.expected_sha
              then if signature_accepted r then none else some ota_bad_signature
              else some sha256_mismatch
        ]

  -- The chunk after the guards, with the probe taken.
  unfoldable pub store_chunk : List ℕ → Bool → Receiver c → Receiver c × WriteResult
  unfolding abort_write
  store_chunk bytes write_ok r =
      if write_ok
      then (let stored = record r { log = wrote r.handle bytes ∷ r.log } in
          elim (c.sha_update r.sha bytes) [
            | none ↦ abort_write sha_engine_failed stored
            | some sha ↦ (
              record stored {
                sha = sha;
                signature = elim r.signature [
                  | none ↦ none
                  | some v ↦ some (c.verifier_update v bytes)
                ];
                written_size = add32 r.written_size (length bytes);
              },
              record { error = none; written_total = add32 r.written_size (length bytes) },
            )
          ])
      else abort_write ota_write_failed r

  unfoldable pub write_probed : List ℕ → Bool → Receiver c → Receiver c × WriteResult
  unfolding store_chunk header_probe_rejects abort_write
  write_probed bytes write_ok r =
      if header_probe_rejects r then abort_write not_app_image r else store_chunk bytes write_ok r

  -- A null pointer is the empty chunk.
  unfoldable pub write_chunk : ℕ → List ℕ → Bool → Receiver c → Receiver c × WriteResult
  unfolding refuse_chunk write_probed capture_header_probe
  write_chunk offset bytes write_ok r =
      if not (is_receiving r.state)
      then refuse_chunk not_receiving r
      else if length bytes == 0
      then refuse_chunk empty_chunk r
      else if offset != r.written_size
      then refuse_chunk offset_mismatch r
      else if ltb r.expected_size (add32 r.written_size (length bytes))
      then refuse_chunk overrun r
      else write_probed bytes write_ok (capture_header_probe bytes r)

  unfoldable pub fail_commit : Error → Receiver c → Receiver c × CommitResult
  unfolding teardown_ota_handle
  fail_commit reason r = (
    record (teardown_ota_handle r) { state = failed },
    record { error = some reason; detail_code = 0 },
  )

  unfoldable pub fail_activation : Error → ℕ → Receiver c → Receiver c × CommitResult
  fail_activation reason code r = (
    record r { target = none; state = failed },
    record { error = some reason; detail_code = code },
  )

  -- `ota_signature_finish_rs` has emptied the slot.
  unfoldable pub activate_image : CommitAnswers → Receiver c → Receiver c × CommitResult
  unfolding fail_activation
  activate_image answers r =
      let closed = record r { handle = 0; signature = none; log = ended r.handle ∷ r.log } in
      if answers.end_code != 0
      then fail_activation ota_end_failed answers.end_code closed
      else if answers.set_boot_code != 0
      then fail_activation set_boot_failed answers.set_boot_code closed
      else (
        record closed { log = boot_set r.target ∷ closed.log; target = none; state = committed },
        record { error = none; detail_code = 0 },
      )

  module _ (allow_unsigned : Bool) where
    unfoldable pub commit : CommitAnswers → Receiver c → Receiver c × CommitResult
    unfolding image_rejection fail_commit activate_image
    commit answers r =
        if not (is_receiving r.state)
        then (r, record { error = some not_receiving; detail_code = 0 })
        else elim (image_rejection allow_unsigned r) [
          | some reason ↦ fail_commit reason r
          | none ↦ activate_image answers r
        ]

  unfoldable pub abort : Receiver c → Receiver c
  unfolding teardown_ota_handle
  abort r = if is_receiving r.state then record (teardown_ota_handle r) { state = failed } else r
