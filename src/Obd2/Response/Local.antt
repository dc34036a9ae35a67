-- ===== src/Obd2/Response/Local.antt =====
-- What src/can/obd2_response.cpp takes from a frame and writes to a buffer.
use canshift_firmware.Prelude.{
  ℕ, zero, suc, ◌+◌, ◌-◌, ◌*◌, ◌/◌, ◌≤◌, ◌<◌, ◌≡◌, refl, ◌&&◌, some, List, [], ◌∷◌, ◌++◌,
  append_assoc, leb, ◌==◌, if◌then◌else◌, take, drop, length, length-append, min, arith, drop_get,
  set-append,
}
use canshift_firmware.Obd2.Response.{byte, write_bytes, copy_from, extract_mode03_dtcs}

-- The copy loop appends code bytes of the frame to what it has written.
copy_from_lem :
    (n i : ℕ) (bytes pre out : List ℕ)
    → i ≡ length pre
    → n ≤ length out
    → 3 + i + n ≤ length bytes
    → copy_from n i bytes (pre ++ out) ≡ pre ++ (take n (drop (3 + i) bytes) ++ drop n out)
unfolding copy_from
copy_from_lem zero i bytes pre out e fit in_frame = refl
copy_from_lem (suc n) i bytes pre [] e fit in_frame = absurd (omega arith)
copy_from_lem (suc n) i bytes pre (o ∷ out) e fit in_frame =
    let v : ℕ = byte bytes (3 + i) in
    ground (
      arith,
      set-append pre out o v,
      copy_from_lem n (i + 1) bytes (pre ++ v ∷ []) out,
      length-append pre (v ∷ []),
      append_assoc pre (v ∷ []) (take n (drop (3 + (i + 1)) bytes) ++ drop n out),
      drop_get bytes (3 + i) 0,
    )

-- How many code bytes a frame yields: whole pairs of those declared, present and fitting.
abbrev pub code_count : List ℕ → ℕ → ℕ → ℕ
code_count bytes len cap =
    if leb 3 len && byte bytes 1 == 0x43
    then min (min (byte bytes 2 * 2) (len - 3)) cap / 2 * 2
    else 0

write_bytes_lem :
    (bytes : List ℕ) (len cap : ℕ)
    → byte bytes 2 < 256
    → 3 ≤ len
    → len < 256
    → cap < 256
    → write_bytes bytes len cap ≡ min (min (byte bytes 2 * 2) (len - 3)) cap / 2 * 2
unfolding write_bytes
write_bytes_lem bytes len cap b h l c = ground arith

-- `Obd2Response::extractMode03Dtcs`, for a frame whose buffer holds at least `len` bytes and an
-- output buffer of at least `cap`: the count is the number of whole code pairs that the frame
-- declares, holds and that fit (0 for any other service or a frame below three bytes), the first
-- cells of the output are the frame's code bytes in order, and the rest of it is untouched.
pub extract_mode03_dtcs_lem :
    (bytes out : List ℕ) (len cap : ℕ)
    → byte bytes 2 < 256
    → len < 256
    → cap < 256
    → len ≤ length bytes
    → cap ≤ length out
    → let n = code_count bytes len cap in
      extract_mode03_dtcs (some bytes) len out cap ≡ (n, take n (drop 3 bytes) ++ drop n out)
unfolding extract_mode03_dtcs
extract_mode03_dtcs_lem bytes out len cap b l c held fit = ground (
  arith,
  write_bytes_lem bytes len cap b,
  copy_from_lem (write_bytes bytes len cap) 0 bytes [] out,
)
