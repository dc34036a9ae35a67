-- ===== src/Ble/Telemetry.antt =====
-- src/hal/ble/telemetry_frame.cpp and its use in ble_telemetry.cpp. Values are a type `Float` with its test
-- for finiteness; `scale` gives the 32 bits of `lroundf(value * 1000)`.
pub mod RoundTrip
pub mod Dedupe
use canshift_firmware.Prelude.{
  ℕ, zero, suc, ◌+◌, ◌*◌, ◌^◌, Bool, true, false, not, ◌&&◌, ◌||◌, Option, none, some, List, [],
  ◌∷◌, ◌++◌, if◌then◌else◌, ltb, leb, ◌==◌, length, bit_or, u16,
}
use canshift_firmware.Ble.Bytes.{write_uint16_le, write_int32_le}

abbrev pub version : ℕ
version = 1

abbrev pub max_fields : ℕ
max_fields = 14

abbrev pub header_bytes : ℕ
header_bytes = 3

abbrev pub value_bytes : ℕ
value_bytes = 4

abbrev pub max_frame_bytes : ℕ
max_frame_bytes = header_bytes + max_fields * value_bytes

abbrev pub keepalive_ticks : ℕ
keepalive_ticks = 10

pub record Field (Float : Type 0) : Type 0 where
  pub present : Bool
  pub value : Float

module _ {Float : Type 0} (is_finite : Float → Bool) (scale : Float → ℕ) where
  unfoldable pub is_emitted : Field Float → Bool
  is_emitted f = f.present && is_finite f.value

  -- The loop that sets the bits, from field `i` on.
  unfoldable pub mask_from : ℕ → ℕ → List (Field Float) → ℕ
  mask_from i mask [] = mask
  mask_from i mask (f ∷ fs) =
      mask_from (i + 1) (if is_emitted f then bit_or mask (u16 (2 ^ i)) else mask) fs

  unfoldable pub count_present : List (Field Float) → ℕ
  count_present [] = 0
  count_present (f ∷ fs) = if is_emitted f then count_present fs + 1 else count_present fs

  -- The loop that writes the values.
  unfoldable pub write_values : List (Field Float) → List ℕ
  write_values [] = []
  write_values (f ∷ fs) =
      if is_emitted f then write_int32_le (scale f.value) ++ write_values fs else write_values fs

  -- `none` where it returns 0.
  unfoldable pub encode : List (Field Float) → ℕ → Option (List ℕ)
  unfolding mask_from count_present write_values
  encode fields buf_size =
      if ltb max_fields (length fields)
      then none
      else if ltb buf_size (header_bytes + count_present fields * value_bytes)
      then none
      else some (version ∷ (write_uint16_le (mask_from 0 0 fields) ++ write_values fields))

-- The first `last_len` bytes of `last`.
pub record Deduper : Type 0 where
  pub last : List ℕ
  pub ticks_since_send : ℕ

unfoldable pub reset_deduper : Deduper → Deduper
reset_deduper d = record { last = []; ticks_since_send = 0 }

abbrev pub bytes_eq : List ℕ → List ℕ → Bool
bytes_eq [] [] = true
bytes_eq (a ∷ xs) (b ∷ ys) = (a == b) && bytes_eq xs ys
bytes_eq _ _ = false

unfoldable pub should_send : List ℕ → Deduper → Deduper × Bool
should_send frame d =
    let ticks =
      if ltb d.ticks_since_send keepalive_ticks
      then d.ticks_since_send + 1
      else d.ticks_since_send in
    if (length frame == 0) || ltb max_frame_bytes (length frame)
    then (d, false)
    else if bytes_eq frame d.last && ltb ticks keepalive_ticks
    then (record d { ticks_since_send = ticks }, false)
    else (record { last = frame; ticks_since_send = 0 }, true)

-- `s_dedup` and `s_lastSubCount`
pub record Emitter : Type 0 where
  pub dedup : Deduper
  pub last_sub_count : ℕ

-- `emitTelemetry` with the number of subscribers and the frame that was built: what it notifies.
unfoldable pub emit_telemetry : ℕ → Option (List ℕ) → Emitter → Emitter × Option (List ℕ)
unfolding should_send reset_deduper
emit_telemetry zero frame e = (record e { last_sub_count = 0 }, none)
emit_telemetry (suc subs) frame e =
    let dedup = if ltb e.last_sub_count (suc subs) then reset_deduper e.dedup else e.dedup in
    elim frame [
      | none ↦ (record { dedup = dedup; last_sub_count = suc subs }, none)
      | some bytes ↦
          let (dedup', send) = should_send bytes dedup in
          (record { dedup = dedup'; last_sub_count = suc subs }, if send then some bytes else none)
    ]
