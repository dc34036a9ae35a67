-- ===== src/Obd2/Response.antt =====
-- src/can/obd2_response.cpp. A buffer pointer is `none` for null, or the bytes that it points to.
-- `length` stands beside the bytes, as in the source; `byte` reads one of them.
pub mod Local
use canshift_firmware.Prelude.{
  ℕ, zero, suc, ◌+◌, ◌-◌, ◌*◌, ◌/◌, Bool, true, false, ◌&&◌, ◌||◌, Option, none, some, List, [],
  ◌∷◌, ltb, leb, ◌==◌, ◌!=◌, if◌then◌else◌, get_or, set, min, u8, u16, bit_or,
}

abbrev pub Buffer : Type 0
Buffer = Option (List ℕ)

abbrev pub byte : List ℕ → ℕ → ℕ
byte bytes i = get_or bytes i 0

abbrev pub mode_read_dtc_response : ℕ
mode_read_dtc_response = 0x43

abbrev pub mode_clear_dtc_response : ℕ
mode_clear_dtc_response = 0x44

abbrev pub request_dlc : ℕ
request_dlc = 8

pub record Header : Type 0 where
  pub valid : Bool
  pub payload_len : ℕ
  pub mode : ℕ
  pub pid : ℕ

abbrev pub no_header : Header
no_header = record { valid = false; payload_len = 0; mode = 0; pid = 0 }

parse_bytes : List ℕ → ℕ → Header
parse_bytes bytes len =
    if ltb len 3
    then no_header
    else if ltb (byte bytes 0) 2 || ltb 6 (byte bytes 0)
    then no_header
    else record {
      valid = true;
      payload_len = byte bytes 0;
      mode = byte bytes 1;
      pid = byte bytes 2;
    }

unfoldable pub parse_header : Buffer → ℕ → Header
unfolding parse_bytes
parse_header none len = no_header
parse_header (some bytes) len = parse_bytes bytes len

unfoldable pub matches : Header → ℕ → ℕ → Bool
matches h request_mode request_pid =
    if h.valid then h.mode == u8 (bit_or request_mode 0x40) && h.pid == request_pid else false

unfoldable pub fits_value_bytes : ℕ → ℕ → ℕ → Bool
fits_value_bytes start_byte byte_length frame_length = leb (start_byte + byte_length) frame_length

-- `bytes & ~1u`
unfoldable pub whole_dtc_pair_bytes : ℕ → ℕ
whole_dtc_pair_bytes n = u16 (n / 2 * 2)

-- The copy loop: rounds left, and the index.
unfoldable pub copy_from : ℕ → ℕ → List ℕ → List ℕ → List ℕ
copy_from zero i bytes out = out
copy_from (suc n) i bytes out = copy_from n (i + 1) bytes (set out i (byte bytes (3 + i)))

-- `declaredBytes`, `presentBytes`, and the clamps.
unfoldable pub write_bytes : List ℕ → ℕ → ℕ → ℕ
unfolding whole_dtc_pair_bytes
write_bytes bytes len out_cap =
    let declared = u16 (byte bytes 2 * 2) in
    let present = u16 (len - 3) in
    let written = if ltb declared present then declared else present in
    whole_dtc_pair_bytes (if ltb out_cap written then out_cap else written)

-- The count returned, and the output buffer.
unfoldable pub extract_mode03_dtcs : Buffer → ℕ → List ℕ → ℕ → ℕ × List ℕ
unfolding write_bytes copy_from
extract_mode03_dtcs none len out out_cap = (0, out)
extract_mode03_dtcs (some bytes) len out out_cap =
    if ltb len 3
    then (0, out)
    else if byte bytes 1 != mode_read_dtc_response
    then (0, out)
    else (u8 (write_bytes bytes len out_cap), copy_from (write_bytes bytes len out_cap) 0 bytes out)

-- The zeroing loop: rounds left, and the index.
unfoldable pub zero_from : ℕ → ℕ → List ℕ → List ℕ
zero_from zero i out = out
zero_from (suc n) i out = zero_from n (i + 1) (set out i 0)

unfoldable pub build_service_request : ℕ → Buffer → ℕ → Option (List ℕ)
unfolding zero_from
build_service_request mode none out_cap = none
build_service_request mode (some out) out_cap =
    if ltb out_cap request_dlc
    then none
    else some (set (set (zero_from out_cap 0 out) 0 0x01) 1 mode)

unfoldable pub is_service_response : Buffer → ℕ → ℕ → Bool
is_service_response none len expected = false
is_service_response (some bytes) len expected =
    if ltb len 2 then false else byte bytes 1 == expected
