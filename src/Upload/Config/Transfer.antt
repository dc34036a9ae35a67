-- ===== src/Upload/Config/Transfer.antt =====
-- A configuration that arrives in chunks, src/hal/usb/usb_dispatch_config_chunk.cpp, while no other
-- transfer uses the chunked write.
use canshift_firmware.Prelude.{
  ℕ, zero, suc, ◌+◌, ◌≤◌, ◌≡◌, ◌≢◌, inl, inr, refl, ap, ◌∙◌, sym, subst, true, Option, none, some,
  List, [], ◌∷◌, ◌++◌, if◌then◌else◌, ◌==◌, length, get_or, length-append, Bool-cases, Option-cases,
  arith, append-nil,
}
use canshift_firmware.Storage.FileSystem.{Spiffs}
use canshift_firmware.Storage.Chunks.{begin_chunked_write_atomic, append_chunk}
use canshift_firmware.Storage.Chunks.Stream.{IsStream, begin-IsStream, append-IsStream}
use canshift_firmware.Upload.{
  Device, ConfigChunk, no_config_chunk, Context, Decode, config_max_bytes, config_chunk_max_raw,
  dashboard_path,
}
use canshift_firmware.Upload.Config.{
  last_or, record_config_bytes, abort_config_chunk, open_config_chunk, begin_config_chunk,
  append_config_chunk,
}

-- The bytes of a chunk.
abbrev pub bytes_or_none : Option (List ℕ) → List ℕ
bytes_or_none none = []
bytes_or_none (some bytes) = bytes

-- What `firstByte`, `lastByte` and `writtenBytes` say of the bytes received.
pub record IsTally (received : List ℕ) (t : ConfigChunk) : Type 0 where
  pub count : t.written_bytes ≡ length received
  pub first : t.first_byte ≢ 0 → t.first_byte ≡ get_or received 0 0
  pub last : t.last_byte ≡ last_or received 0

pub last_or-append : (xs ys : List ℕ) (d : ℕ) → last_or (xs ++ ys) d ≡ last_or ys (last_or xs d)
last_or-append [] ys d = refl
last_or-append (x ∷ xs) ys d = last_or-append xs ys x

get_first : (xs ys : List ℕ) (f : ℕ) → f ≢ 0 → f ≡ get_or xs 0 0 → f ≡ get_or (xs ++ ys) 0 0
get_first [] ys f n e = absurd (n e)
get_first (x ∷ xs) ys f n e = e

first_byte_kept :
    (received bytes : List ℕ) (idx : ℕ) (t : ConfigChunk)
    → IsTally received t
    → (idx ≡ 0 → received ≡ [])
    → (if idx == 0 then get_or bytes 0 0 else t.first_byte) ≢ 0
    → (if idx == 0 then get_or bytes 0 0 else t.first_byte) ≡ get_or (received ++ bytes) 0 0
first_byte_kept received bytes zero t v z n = ap (λ r. get_or (r ++ bytes) 0 0) (sym (z refl))
first_byte_kept received bytes (suc idx) t v z n =
    ground (arith, get_first received bytes t.first_byte, v.first)

record-IsTally :
    (received bytes : List ℕ) (idx : ℕ) (t : ConfigChunk)
    → IsTally received t
    → (idx ≡ 0 → received ≡ [])
    → IsTally (received ++ bytes) (record_config_bytes bytes idx t)
unfolding record_config_bytes
record-IsTally received [] idx t v z = subst (λ r. IsTally r t) (sym (append-nil received)) v
record-IsTally received (b ∷ bytes) idx t v z = elim (Bool-cases (length (b ∷ bytes) == 0)) [
  | inl e ↦ absurd (ground arith)
  | inr e ↦
      rw (e, record_config_bytes)
        (record {
          count = omega (arith, v.count, length-append received (b ∷ bytes));
          first = λ n. first_byte_kept received (b ∷ bytes) idx t v z n;
          last = sym (last_or-append received (b ∷ bytes) 0);
        })
]

record_keeps :
    (bytes : List ℕ) (idx : ℕ) (t : ConfigChunk)
    → ((record_config_bytes bytes idx t).is_open ≡ t.is_open)
      × ((record_config_bytes bytes idx t).declared_bytes ≡ t.declared_bytes)
unfolding record_config_bytes
record_keeps bytes idx t = ground arith

module _ {S : Spiffs} where
  -- The transfer is open on the dashboard's stream, and has stored these bytes.
  pub record IsTransfer (received : List ℕ) (d : Device S) : Type 0 where
    pub is_open : d.config.is_open ≡ true
    pub stream : IsStream dashboard_path received d.storage
    pub tally : IsTally received d.config
    pub bound : d.config.declared_bytes ≤ config_max_bytes

  -- The storage and the state that `beginConfigChunk` leaves when it succeeds.
  opened_device : Context → ℕ → ℕ → Device S → Device S
  opened_device ctx declared total d = record d {
    storage = (begin_chunked_write_atomic dashboard_path d.storage).0;
    config = record no_config_chunk {
      total = total;
      last_activity_ms = ctx.started;
      declared_bytes = declared;
      is_open = true;
      from_socket = ctx.from_socket;
    };
  }

  open_lem :
      (ctx : Context) (declared total : ℕ) (d : Device S)
      → (open_config_chunk ctx declared total d).2 ≡ true
      → (declared ≤ config_max_bytes)
        × ((begin_chunked_write_atomic dashboard_path d.storage).1 ≡ true)
        × ((open_config_chunk ctx declared total d).0 ≡ opened_device ctx declared total d)
  unfolding open_config_chunk opened_device
  open_lem ctx declared total d e = ground arith

  open-IsTransfer :
      (ctx : Context) (declared total : ℕ) (d : Device S)
      → (open_config_chunk ctx declared total d).2 ≡ true
      → IsTransfer [] (open_config_chunk ctx declared total d).0
        × ((open_config_chunk ctx declared total d).0.config.declared_bytes ≡ declared)
  unfolding opened_device
  open-IsTransfer ctx declared total d e =
      let done = open_lem ctx declared total d e in
      let stream = begin-IsStream dashboard_path d.storage done.1 in
      rw done.2 (
        record {
          is_open = refl;
          stream = stream.1;
          tally = record { count = refl; first = λ n. absurd (n refl); last = refl };
          bound = done.0;
        },
        refl,
      )

  pub begin-IsTransfer :
      (ctx : Context) (declared total : ℕ) (d : Device S)
      → (begin_config_chunk ctx declared total d).2 ≡ true
      → IsTransfer [] (begin_config_chunk ctx declared total d).0
        × ((begin_config_chunk ctx declared total d).0.config.declared_bytes ≡ declared)
  unfolding begin_config_chunk
  begin-IsTransfer ctx declared total d e =
      open-IsTransfer ctx declared total (abort_config_chunk d).0 e

  -- A chunk that is stored.
  pub append_lem :
      (decode : Decode) (ctx : Context) (text bytes : List ℕ) (idx : ℕ) (d : Device S)
      → decode config_chunk_max_raw text ≡ some bytes
      → (append_config_chunk decode ctx text idx d).1 ≡ none
      → ((append_chunk bytes d.storage).1 ≡ true)
        × ((append_config_chunk decode ctx text idx d).0 ≡ record d {
          storage = (append_chunk bytes d.storage).0;
          config = record (record_config_bytes bytes idx d.config) {
            expected_idx = idx + 1;
            last_activity_ms = ctx.stored;
          };
        })
  unfolding append_config_chunk
  append_lem decode ctx text bytes idx d k e = ground arith

  pub append-IsTransfer :
      (decode : Decode) (ctx : Context) (text : List ℕ) (idx : ℕ) (received : List ℕ) (d : Device S)
      → IsTransfer received d
      → (idx ≡ 0 → received ≡ [])
      → (append_config_chunk decode ctx text idx d).1 ≡ none
      → IsTransfer
          (received ++ bytes_or_none (decode config_chunk_max_raw text))
          (append_config_chunk decode ctx text idx d).0
        × ((append_config_chunk decode ctx text idx d).0.config.declared_bytes
            ≡ d.config.declared_bytes)
  unfolding append_config_chunk
  append-IsTransfer decode ctx text idx received d v z e =
      elim (Option-cases (decode config_chunk_max_raw text)) [
        | inl n ↦ absurd (ground arith)
        | inr (bytes, k) ↦
            let done = append_lem decode ctx text bytes idx d k e in
            let kept = record_keeps bytes idx d.config in
            let tally = record-IsTally received bytes idx d.config v.tally z in
            rw done.1 (
              rw k (
                record {
                  is_open = kept.0 ∙ v.is_open;
                  stream = append-IsStream dashboard_path received bytes d.storage v.stream done.0;
                  tally = record { count = tally.count; first = tally.first; last = tally.last };
                  bound = omega (arith, kept.1, v.bound);
                },
                kept.1,
              ))
      ]
