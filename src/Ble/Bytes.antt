-- ===== src/Ble/Bytes.antt =====
-- The little-endian numbers of src/hal/ble/telemetry_frame.cpp and alert_frame.cpp, and how a receiver
-- reads them. `& 0xFF` is the remainder by 256, and `>> 8 * k` the quotient by 256 ^ k.
use canshift_firmware.Prelude.{
  ℕ, ◌+◌, ◌*◌, ◌/◌, ◌%◌, ◌<◌, ◌≡◌, ap, Option, none, some, List, [], ◌∷◌, ◌++◌, arith,
}

-- `writeUint16Le`
unfoldable pub write_uint16_le : ℕ → List ℕ
write_uint16_le n = (n % 256) ∷ ((n / 256) % 256) ∷ []

-- `writeInt32Le`, of the bits of the value.
unfoldable pub write_int32_le : ℕ → List ℕ
write_int32_le bits =
    (bits % 256) ∷ ((bits / 256) % 256) ∷ ((bits / 65536) % 256) ∷ ((bits / 16777216) % 256) ∷ []

pub read_uint16 : List ℕ → Option (ℕ × List ℕ)
read_uint16 (a ∷ b ∷ rest) = some (a + 256 * b, rest)
read_uint16 _ = none

pub read_int32 : List ℕ → Option (ℕ × List ℕ)
read_int32 (a ∷ b ∷ c ∷ d ∷ rest) = some (a + 256 * b + 65536 * c + 16777216 * d, rest)
read_int32 _ = none

pub read_uint16_lem :
    (n : ℕ) (rest : List ℕ) → n < 65536 → read_uint16 (write_uint16_le n ++ rest) ≡ some (n, rest)
unfolding read_uint16 write_uint16_le
read_uint16_lem n rest h = ap (λ m. some (m, rest)) (omega arith)

pub read_int32_lem :
    (n : ℕ) (rest : List ℕ)
    → n < 4294967296
    → read_int32 (write_int32_le n ++ rest) ≡ some (n, rest)
unfolding read_int32 write_int32_le
read_int32_lem n rest h = ap (λ m. some (m, rest)) (omega arith)
