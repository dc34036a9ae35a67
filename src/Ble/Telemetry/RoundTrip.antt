-- ===== src/Ble/Telemetry/RoundTrip.antt =====
-- What a receiver reads from the frames of src/hal/ble/telemetry_frame.cpp.
use canshift_firmware.Prelude.{
  ℕ, zero, suc, ◌+◌, ◌*◌, ◌/◌, ◌%◌, ◌^◌, ◌≤◌, ◌<◌, ◌≡◌, refl, ap, ◌∙◌, Bool, true, false, ◌&&◌,
  Option, none, some, List, [], ◌∷◌, ◌++◌, map, if◌then◌else◌, ◌==◌, length, bit_or, u16, arith,
  inl, inr, ◌⊎◌, Bool-cases, ==_iff,
}
use canshift_firmware.Ble.Bytes.{
  write_uint16_le, write_int32_le, read_uint16, read_int32, read_uint16_lem, read_int32_lem,
}
use canshift_firmware.Ble.Telemetry.{
  version, max_fields, max_frame_bytes, Field, is_emitted, mask_from, count_present, write_values,
  encode,
}

abbrev put : Option ℕ → Option (List (Option ℕ)) → Option (List (Option ℕ))
put v none = none
put v (some vs) = some (v ∷ vs)

-- Each field by its bit, from the lowest on, and nothing after the last one.
pub read_values : ℕ → ℕ → List ℕ → Option (List (Option ℕ))
read_values zero mask [] = if mask == 0 then some [] else none
read_values zero mask (b ∷ bytes) = none
read_values (suc n) mask bytes = elim (mask % 2 == 1) [
  | false ↦ put none (read_values n (mask / 2) bytes)
  | true ↦ elim (read_int32 bytes) [
    | none ↦ none
    | some (v, rest) ↦ put (some v) (read_values n (mask / 2) rest)
  ]
]

-- A receiver that knows of `n` fields.
unfoldable pub decode : ℕ → List ℕ → Option (List (Option ℕ))
unfolding read_values
decode n [] = none
decode n (v ∷ bytes) =
    if v == version
    then elim (read_uint16 bytes) [ none ↦ none | some (mask, rest) ↦ read_values n mask rest ]
    else none

read_present :
    (n b v : ℕ) (rest : List ℕ)
    → v < 4294967296
    → read_values (suc n) (1 + 2 * b) (write_int32_le v ++ rest)
      ≡ put (some v) (read_values n b rest)
unfolding read_values
read_present n b v rest h =
    let low : ((1 + 2 * b) % 2 == 1) ≡ true = ground arith in
    let high : (1 + 2 * b) / 2 ≡ b = omega arith in
    rw (read_values, low, read_int32_lem v rest h, high) refl

read_absent :
    (n b : ℕ) (bytes : List ℕ)
    → read_values (suc n) (0 + 2 * b) bytes ≡ put none (read_values n b bytes)
unfolding read_values
read_absent n b bytes =
    let low : ((0 + 2 * b) % 2 == 1) ≡ false = ground arith in
    let high : (0 + 2 * b) / 2 ≡ b = omega arith in rw (read_values, low, high) refl

weight : ℕ → ℕ
weight zero = 1
weight (suc i) = 2 * weight i

both_lem : (a b : Bool) → (a && b) ≡ true → (a ≡ true) × (b ≡ true)
both_lem a b e = ground arith

last_cases : (i n : ℕ) → i < suc n → (i ≡ n) ⊎ (i < n)
last_cases i n lt = ground arith

-- A test of all numbers of so many bits, split by the lowest bit.
for_bits : ℕ → (ℕ → Bool) → Bool
for_bits zero test = test 0
for_bits (suc n) test = for_bits n (λ m. test (2 * m)) && for_bits n (λ m. test (2 * m + 1))

half_cases : (m : ℕ) → (m ≡ 2 * (m / 2)) ⊎ (m ≡ 2 * (m / 2) + 1)
half_cases m = ground arith

for_bits_lem :
    (n : ℕ) (test : ℕ → Bool) (m : ℕ) → for_bits n test ≡ true → m < weight n → test m ≡ true
unfolding for_bits weight
for_bits_lem zero test m e lt = let first : m ≡ 0 = omega arith in ap test first ∙ e
for_bits_lem (suc n) test m e lt =
    let (even, odd) =
      both_lem (for_bits n (λ m. test (2 * m))) (for_bits n (λ m. test (2 * m + 1))) e in
    elim (half_cases m) [
      | inl q ↦ ap test q ∙ for_bits_lem n (λ m. test (2 * m)) (m / 2) even (omega arith)
      | inr q ↦ ap test q ∙ for_bits_lem n (λ m. test (2 * m + 1)) (m / 2) odd (omega arith)
    ]

abbrev sets_bit : ℕ → ℕ → Bool
sets_bit i m = bit_or m (u16 (2 ^ i)) == m + weight i

-- Every mask of the bits below bit `i`, for each of the first bits.
set_below : ℕ → Bool
set_below zero = true
set_below (suc i) = set_below i && for_bits i (sets_bit i)

bit_table : set_below 14 ≡ true
unfolding set_below for_bits weight
bit_table = refl

set_below_lem : (n i : ℕ) → set_below n ≡ true → i < n → for_bits i (sets_bit i) ≡ true
unfolding set_below
set_below_lem zero i e lt = absurd (omega arith)
set_below_lem (suc n) i e lt =
    let (below, here) = both_lem (set_below n) (for_bits n (sets_bit n)) e in
    elim (last_cases i n lt) [
      | inl q ↦ ap (λ k. for_bits k (sets_bit k)) q ∙ here
      | inr q ↦ set_below_lem n i below q
    ]

bit_lem : (i m : ℕ) → i < 14 → m < weight i → bit_or m (u16 (2 ^ i)) ≡ m + weight i
bit_lem i m h lt =
    (==_iff _ _).0 (for_bits_lem i (sets_bit i) m (set_below_lem 14 i bit_table h) lt)

weight_step : (i : ℕ) → weight (i + 1) ≡ 2 * weight i
unfolding weight
weight_step i = let e : i + 1 ≡ suc i = omega arith in ap weight e

times_odd : (m w b : ℕ) → m + w + 2 * w * b ≡ m + w * (1 + 2 * b)
times_odd m w b = grind arith

times_even : (m w b : ℕ) → m + 2 * w * b ≡ m + w * (0 + 2 * b)
times_even m w b = grind arith

weight_pos : 0 < weight 0
unfolding weight
weight_pos = omega arith

times_one : (b : ℕ) → 0 + weight 0 * b ≡ b
unfolding weight
times_one b = omega arith

module _ {Float : Type 0} (is_finite : Float → Bool) (scale : Float → ℕ) where
  -- The bits of the fields, the first one lowest.
  bits : List (Field Float) → ℕ
  bits [] = 0
  bits (f ∷ fs) = (if is_emitted is_finite scale f then 1 else 0) + 2 * bits fs

  mask_lem :
      (i mask : ℕ) (fs : List (Field Float))
      → i + length fs ≤ 14
      → mask < weight i
      → mask_from is_finite scale i mask fs ≡ mask + weight i * bits fs
  unfolding mask_from bits weight
  mask_lem i mask [] h lt = omega arith
  mask_lem i mask (f ∷ fs) h lt =
      let step = weight_step i in
      elim (Bool-cases (is_emitted is_finite scale f)) [
        | inl e ↦
            rw (e, bit_lem i mask (omega arith) lt)
              (mask_lem (i + 1) (mask + weight i) fs (omega arith) (omega arith)
                ∙ ap (λ w. mask + weight i + w * bits fs) step
                ∙ times_odd mask (weight i) (bits fs))
        | inr e ↦ rw e (
            mask_lem (i + 1) mask fs (omega arith) (omega arith)
            ∙ ap (λ w. mask + w * bits fs) step
            ∙ times_even mask (weight i) (bits fs))
      ]

  -- A field as the receiver should see it.
  abbrev pub seen : Field Float → Option ℕ
  seen f = if is_emitted is_finite scale f then some (scale f.value) else none

  module _ (scale_bits : (v : Float) → scale v < 4294967296) where
    read_values_lem :
        (fs : List (Field Float))
        → read_values (length fs) (bits fs) (write_values is_finite scale fs) ≡ some (map seen fs)
    unfolding read_values bits write_values
    read_values_lem [] = refl
    read_values_lem (f ∷ fs) = elim (Bool-cases (is_emitted is_finite scale f)) [
      | inl e ↦ rw e (
          read_present (length fs) (bits fs) (scale f.value) (write_values is_finite scale fs)
            (scale_bits f.value)
          ∙ ap (put (some (scale f.value))) (read_values_lem fs))
      | inr e ↦ rw e (
          read_absent (length fs) (bits fs) (write_values is_finite scale fs)
          ∙ ap (put none) (read_values_lem fs))
    ]

    bits_lt : (i : ℕ) (fs : List (Field Float)) → length fs ≤ i → bits fs < weight i
    unfolding bits weight
    bits_lt zero [] h = omega arith
    bits_lt (suc i) [] h = omega (arith, bits_lt i [])
    bits_lt zero (f ∷ fs) h = absurd (omega arith)
    bits_lt (suc i) (f ∷ fs) h = ground (arith, bits_lt i fs)

    bits_small :
        (mask : ℕ) (fs : List (Field Float))
        → mask ≡ bits fs
        → length fs ≤ max_fields
        → mask < 65536
    unfolding weight
    bits_small mask fs e h = omega (arith, bits_lt 14 fs h)

    count_lem : (fs : List (Field Float)) → count_present is_finite scale fs ≤ length fs
    unfolding count_present
    count_lem [] = omega arith
    count_lem (f ∷ fs) = ground (arith, count_lem fs)

    -- A frame of at most 14 fields always fits 59 bytes, and a receiver that knows of as many fields reads
    -- from it, for each of them, the scaled value where it was present and finite, and nothing else.
    pub decode-encode :
        (fields : List (Field Float))
        → length fields ≤ max_fields
        → (frame : List ℕ) × (encode is_finite scale fields max_frame_bytes ≡ some frame)
          × (decode (length fields) frame ≡ some (map seen fields))
    unfolding encode decode
    decode-encode fields h =
        let mask = mask_from is_finite scale 0 0 fields in
        let values = write_values is_finite scale fields in
        let whole : mask ≡ bits fields =
          mask_lem 0 0 fields (omega arith) weight_pos ∙ times_one (bits fields) in
        let small : mask < 65536 = bits_small mask fields whole h in
        (
          version ∷ (write_uint16_le mask ++ values),
          ground (arith, count_lem fields),
          rw (decode, read_uint16_lem mask values small, whole) (read_values_lem fields),
        )
