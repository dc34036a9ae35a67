-- ===== src/Obd2/Poller/Decode.antt =====
-- Which response of the bus src/can/obd2_poller.cpp decodes for which slot.
use canshift_firmware.Prelude.{
  ℕ, ◌+◌, ◌≡◌, refl, Bool, true, ◌&&◌, Option, none, some, List, [], ◌∷◌, leb, ◌==◌, if◌then◌else◌,
  arith, u8, bit_or,
}
use canshift_firmware.Obd2.Response.{byte, Header, parse_header, matches, fits_value_bytes}
use canshift_firmware.Obd2.Poller.{
  Poller, PollSlot, Decode, decode_from, on_rx_frame, response_frame_id,
}

-- A single-frame response: three bytes at least, and two to six announced.
abbrev pub is_response : List ℕ → ℕ → Bool
is_response bytes len = leb 3 len && leb 2 (byte bytes 0) && leb (byte bytes 0) 6

module _ {Float : Type 0} where
  -- The slot asked for this response, and its value lies inside the frame.
  abbrev pub answers : List ℕ → ℕ → PollSlot Float → Bool
  answers bytes len slot =
      byte bytes 1 == u8 (bit_or slot.mode 0x40)
      && byte bytes 2 == slot.pid
      && leb (slot.layout.start_byte + slot.layout.byte_length) len

  unfoldable pub first_answered : List ℕ → ℕ → List (PollSlot Float) → Option (PollSlot Float)
  first_answered bytes len [] = none
  first_answered bytes len (slot ∷ slots) =
      let rest = first_answered bytes len slots in
      if answers bytes len slot then some slot else rest

  abbrev pub stored : Decode Float → List ℕ → ℕ → Option (PollSlot Float) → Option (ℕ × Float)
  stored decode bytes len none = none
  stored decode bytes len (some slot) = some (slot.signal_id, decode (some bytes) slot.layout len)

  decode_from_lem :
      (decode : Decode Float) (header : Header) (bytes : List ℕ) (len : ℕ)
      (slots : List (PollSlot Float))
      → header.valid ≡ true
      → header.mode ≡ byte bytes 1
      → header.pid ≡ byte bytes 2
      → decode_from decode header (some bytes) len slots
        ≡ stored decode bytes len (first_answered bytes len slots)
  unfolding decode_from first_answered matches fits_value_bytes
  decode_from_lem decode header bytes len [] v m q = refl
  decode_from_lem decode header bytes len (slot ∷ slots) v m q =
      ground (arith, decode_from_lem decode header bytes len slots v m q)

  on_rx_frame_from :
      (decode : Decode Float) (id : ℕ) (bytes : List ℕ) (len : ℕ) (p : Poller Float)
      (slots : List (PollSlot Float))
      → p.slots ≡ slots
      → on_rx_frame decode id (some bytes) len p ≡ (
          if id == response_frame_id && is_response bytes len
          then stored decode bytes len (first_answered bytes len slots)
          else none)
  unfolding on_rx_frame first_answered parse_header
  on_rx_frame_from decode id bytes len p [] e = ground arith
  on_rx_frame_from decode id bytes len p (slot ∷ slots) e =
      ground
        (arith, decode_from_lem decode (parse_header (some bytes) len) bytes len (slot ∷ slots))

  -- A frame is stored for the first slot, in the order of the table, that asked for its service and
  -- parameter and whose value bytes all lie inside it, and for no other slot. It is left to the
  -- other decoders when there is no such slot, when it does not come from the engine controller,
  -- and when it is no single-frame response.
  pub on_rx_frame_lem :
      (decode : Decode Float) (id : ℕ) (bytes : List ℕ) (len : ℕ) (p : Poller Float)
      → on_rx_frame decode id (some bytes) len p ≡ (
          if id == response_frame_id && is_response bytes len
          then stored decode bytes len (first_answered bytes len p.slots)
          else none)
  on_rx_frame_lem decode id bytes len p = on_rx_frame_from decode id bytes len p p.slots refl
