-- ===== src/Ota/Receiver/Probe.antt =====
-- The header probe of src/runtime/ota_receiver.cpp collects the first 36 bytes of the image, in
-- whatever chunks they come.
use canshift_firmware.Prelude.{
  ℕ, zero, suc, ◌+◌, ◌-◌, ◌≤◌, ◌<◌, ◌≡◌, inl, inr, refl, ap, ◌∙◌, sym, false, List, [], ◌∷◌, ◌++◌,
  if◌then◌else◌, ltb, leb, length, take, drop, get_or, min, arith, length-append, length-take,
  length-drop, take-append, take_all, take_prefix, append_assoc, get_or-take, get_or-append, dec_lt,
  Bool-cases, leb→le, lt→ltb,
}
use canshift_firmware.Ota.Crypto.{Crypto}
use canshift_firmware.Ota.Receiver.{
  Receiver, memcpy, word_at, app_header_probe_bytes, capture_header_probe, header_probe_rejects,
  esp_image_magic, app_desc_magic, app_desc_offset,
}

-- The buffer holds the start of the image.
pub record IsProbe (img probe : List ℕ) (len : ℕ) : Type 0 where
  pub size : length probe ≡ app_header_probe_bytes
  pub filled : len ≡ min app_header_probe_bytes (length img)
  pub start : take len probe ≡ take app_header_probe_bytes img

take-append_left : (n : ℕ) (xs ys : List ℕ) → n ≤ length xs → take n (xs ++ ys) ≡ take n xs
take-append_left zero xs ys h = refl
take-append_left (suc n) [] ys h = absurd (omega arith)
take-append_left (suc n) (x ∷ xs) ys h = ap (λ t. x ∷ t) (take-append_left n xs ys (omega arith))

abbrev taken : List ℕ → ℕ → ℕ
taken bytes room = if ltb (length bytes) room then length bytes else room

take-taken : (room : ℕ) (bytes : List ℕ) → take (taken bytes room) bytes ≡ take room bytes
take-taken room bytes = elim (dec_lt (length bytes) room) [
  | yes h ↦ ground (arith, take_all room bytes, take_all (length bytes) bytes)
  | no h ↦ ground arith
]

-- What the probe holds after `memcpy` is the image so far, the new bytes and the old tail.
memcpy-start :
    (img probe new : List ℕ) (len : ℕ)
    → take len probe ≡ img
    → len ≡ length img
    → take (len + length new) (memcpy probe len new) ≡ img ++ new
memcpy-start img probe new len e l = rw e (
    rw (← append_assoc img new (drop (len + length new) probe)) (
      take_prefix (len + length new) (img ++ new) (drop (len + length new) probe)
        (omega (arith, length-append img new))))

length-memcpy :
    (probe new : List ℕ) (at : ℕ)
    → at + length new ≤ length probe
    → length (memcpy probe at new) ≡ length probe
length-memcpy probe new at h = omega (
  arith,
  length-append (take at probe) (new ++ drop (at + length new) probe),
  length-append new (drop (at + length new) probe),
  length-take at probe,
  length-drop (at + length new) probe,
)

memcpy-IsProbe :
    (img probe bytes : List ℕ) (len : ℕ)
    → IsProbe img probe len
    → len < app_header_probe_bytes
    → let n = taken bytes (app_header_probe_bytes - len) in
      IsProbe (img ++ bytes) (memcpy probe len (take n bytes)) (len + n)
memcpy-IsProbe img probe bytes len v h =
    let n : ℕ = taken bytes (app_header_probe_bytes - len) in
    let new : List ℕ = take n bytes in
    let count : length new ≡ n = ground (arith, length-take n bytes) in
    let whole : take len probe ≡ img =
      v.start ∙ take_all app_header_probe_bytes img (omega (arith, v.filled)) in
    let sized : len ≡ length img = omega (arith, v.filled) in
    record {
      size = length-memcpy probe new len (ground (arith, v.size, length-take n bytes)) ∙ v.size;
      filled = ground (arith, v.filled, length-append img bytes);
      start =
          ap (λ k. take (len + k) (memcpy probe len new)) (sym count)
          ∙ memcpy-start img probe new len whole sized
          ∙ ap (λ t. img ++ t) (take-taken (app_header_probe_bytes - len) bytes)
          ∙ ground (
            arith,
            take-append app_header_probe_bytes img bytes,
            take_all app_header_probe_bytes img,
          );
    }

full-IsProbe :
    (img probe bytes : List ℕ) (len : ℕ)
    → IsProbe img probe len
    → app_header_probe_bytes ≤ len
    → IsProbe (img ++ bytes) probe len
full-IsProbe img probe bytes len v h = record {
  size = v.size;
  filled = omega (arith, v.filled, length-append img bytes);
  start =
      v.start ∙ sym (take-append_left app_header_probe_bytes img bytes (omega (arith, v.filled)));
}

module _ {c : Crypto} where
  -- Whatever the chunk, the probe goes on holding the start of the image.
  pub capture_header_probe-IsProbe :
      (img bytes : List ℕ) (r : Receiver c)
      → IsProbe img r.header_probe r.header_probe_len
      → let r' = capture_header_probe bytes r in
        IsProbe (img ++ bytes) r'.header_probe r'.header_probe_len
  unfolding capture_header_probe
  capture_header_probe-IsProbe img bytes r v =
      elim (Bool-cases (leb app_header_probe_bytes r.header_probe_len)) [
        | inl e ↦ rw e (
            full-IsProbe img r.header_probe bytes r.header_probe_len v
              (leb→le app_header_probe_bytes r.header_probe_len e))
        | inr e ↦ rw e (memcpy-IsProbe img r.header_probe bytes r.header_probe_len v (ground arith))
      ]

-- The two magic numbers of an application image.
pub record IsAppImage (img : List ℕ) : Type 0 where
  pub image_magic : get_or img 0 0 ≡ esp_image_magic
  pub desc_magic : word_at img app_desc_offset ≡ app_desc_magic

probe_cell :
    (img probe : List ℕ) (len i : ℕ)
    → IsProbe img probe len
    → app_header_probe_bytes ≤ length img
    → i < app_header_probe_bytes
    → get_or probe i 0 ≡ get_or img i 0
probe_cell img probe len i v h lt = ground (
  arith,
  v.start,
  v.filled,
  get_or-take len i probe 0,
  get_or-take app_header_probe_bytes i img 0,
)

app_cell :
    (img probe rest : List ℕ) (len i : ℕ)
    → IsProbe img probe len
    → app_header_probe_bytes ≤ length img
    → i < app_header_probe_bytes
    → get_or probe i 0 ≡ get_or (img ++ rest) i 0
app_cell img probe rest len i v h lt =
    probe_cell img probe len i v h lt ∙ sym (get_or-append img rest i 0 (omega arith))

module _ {c : Crypto} where
  -- A complete probe that is not rejected belongs to an application image.
  pub probe-IsAppImage :
      (img : List ℕ) (r : Receiver c)
      → IsProbe img r.header_probe r.header_probe_len
      → app_header_probe_bytes ≤ length img
      → header_probe_rejects r ≡ false
      → IsAppImage img
  unfolding header_probe_rejects
  probe-IsAppImage img r v h e = ground (
    arith,
    v.filled,
    probe_cell img r.header_probe r.header_probe_len 0 v h,
    probe_cell img r.header_probe r.header_probe_len 32 v h,
    probe_cell img r.header_probe r.header_probe_len 33 v h,
    probe_cell img r.header_probe r.header_probe_len 34 v h,
    probe_cell img r.header_probe r.header_probe_len 35 v h,
  )

  -- And an application image is not rejected, whatever part of it has come.
  pub header_probe_rejects_app :
      (img rest : List ℕ) (r : Receiver c)
      → IsProbe img r.header_probe r.header_probe_len
      → IsAppImage (img ++ rest)
      → header_probe_rejects r ≡ false
  unfolding header_probe_rejects
  header_probe_rejects_app img rest r v a =
      elim (dec_lt r.header_probe_len app_header_probe_bytes) [
        | yes short ↦ rw (lt→ltb r.header_probe_len app_header_probe_bytes short)
        | no long ↦
            let held : app_header_probe_bytes ≤ length img = omega (arith, v.filled) in
            ground (
              arith,
              app_cell img r.header_probe rest r.header_probe_len 0 v held,
              app_cell img r.header_probe rest r.header_probe_len 32 v held,
              app_cell img r.header_probe rest r.header_probe_len 33 v held,
              app_cell img r.header_probe rest r.header_probe_len 34 v held,
              app_cell img r.header_probe rest r.header_probe_len 35 v held,
            )
      ]
