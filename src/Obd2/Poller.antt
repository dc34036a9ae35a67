-- ===== src/Obd2/Poller.antt =====
-- src/can/obd2_poller.cpp: periodic requests and the decoding of their responses. Floating-point
-- numbers are a type `Float`; the decoding of bytes to a number (rust/can-parser), the catalogue of
-- signal names, the clock and `CanManager::sendFrame` are arguments.
pub mod Schedule
pub mod Decode
pub mod Setup
use canshift_firmware.Prelude.{
  ℕ, zero, suc, ◌+◌, ◌*◌, Bool, true, false, not, ◌&&◌, ◌||◌, Option, none, some, List, [], ◌∷◌,
  ◌++◌, if◌then◌else◌, ltb, leb, ◌==◌, ◌!=◌, length, add32, sub32, before32, u8, u32,
}
use canshift_firmware.Obd2.Response.{Buffer, Header, parse_header, matches, fits_value_bytes}

abbrev pub max_poll_slots : ℕ
max_poll_slots = 48

abbrev pub poll_stagger_ms : ℕ
poll_stagger_ms = 25

-- `SignalIds::kSignalCount`, which stands for "no such name".
abbrev pub signal_count : ℕ
signal_count = 64

abbrev pub request_dlc : ℕ
request_dlc = 8

abbrev pub request_frame_id : ℕ
request_frame_id = 0x7DF

abbrev pub response_frame_id : ℕ
response_frame_id = 0x7E8

-- How a value is laid out in a frame.
pub record Layout (Float : Type 0) : Type 0 where
  pub start_byte : ℕ
  pub byte_length : ℕ
  pub big_endian : Bool
  pub is_signed : Bool
  pub bit_mask : ℕ
  pub scale : Float
  pub offset : Float

-- The fields of `CfgSignalDef` that the poller reads.
pub record SignalDef (Name Float : Type 0) : Type 0 where
  pub name : Name
  pub poll_mode : ℕ
  pub poll_pid : ℕ
  pub poll_interval_ms : ℕ
  pub layout : Layout Float

pub record PollSlot (Float : Type 0) : Type 0 where
  pub signal_id : ℕ
  pub mode : ℕ
  pub pid : ℕ
  pub interval_ms : ℕ
  pub next_poll_ms : ℕ
  pub layout : Layout Float

-- `s_slots` up to `s_slotCount`, and the other statics.
pub record Poller (Float : Type 0) : Type 0 where
  pub slots : List (PollSlot Float)
  pub warned_slot_overflow : Bool
  pub next_due_ms : ℕ

unfoldable pub time_reached : ℕ → ℕ → Bool
time_reached now due = not (before32 now due)

unfoldable pub build_request_frame : ℕ → ℕ → List ℕ
build_request_frame mode pid = 0x02 ∷ mode ∷ pid ∷ 0 ∷ 0 ∷ 0 ∷ 0 ∷ 0 ∷ []

-- `CanParser::detail::decodeBytes` on a frame.
abbrev pub Decode : Type 0 → Type 0
Decode Float = Buffer → Layout Float → ℕ → Float

module _ {Float : Type 0} where
  -- `s_slotCount` has been raised already when the slot is filled; the clock is read once for each.
  unfoldable pub fill_poll_slot :
      {Name : Type 0} → (ℕ → ℕ) → ℕ → SignalDef Name Float → ℕ → PollSlot Float
  fill_poll_slot millis slot_count def sid = record {
    signal_id = sid;
    mode = def.poll_mode;
    pid = def.poll_pid;
    interval_ms = def.poll_interval_ms;
    next_poll_ms = add32 (millis slot_count) (slot_count * poll_stagger_ms);
    layout = def.layout;
  }

  unfoldable pub add_poll_slot :
      {Name : Type 0} → (Name → ℕ) → (ℕ → ℕ) → SignalDef Name Float → Poller Float → Poller Float
  unfolding fill_poll_slot
  add_poll_slot signal_id_from_name millis def p =
      if def.poll_interval_ms == 0
      then p
      else if ltb (length p.slots) max_poll_slots
      then if signal_id_from_name def.name == signal_count then p else record p {
        slots =
            p.slots
            ++ fill_poll_slot millis (length p.slots + 1) def (signal_id_from_name def.name) ∷ [];
      }
      else record p { warned_slot_overflow = true }

  unfoldable pub add_poll_slots :
      {Name : Type 0}
      → (Name → ℕ)
      → (ℕ → ℕ)
      → List (SignalDef Name Float)
      → Poller Float
      → Poller Float
  unfolding add_poll_slot
  add_poll_slots signal_id_from_name millis [] p = p
  add_poll_slots signal_id_from_name millis (def ∷ defs) p =
      add_poll_slots signal_id_from_name millis defs
        (add_poll_slot signal_id_from_name millis def p)

  abbrev pub no_slots : Poller Float
  no_slots = record { slots = []; warned_slot_overflow = false; next_due_ms = 0 }

  -- `init`; the definitions are `none` while no configuration is loaded.
  unfoldable pub init :
      {Name : Type 0} → (Name → ℕ) → (ℕ → ℕ) → Option (List (SignalDef Name Float)) → Poller Float
  unfolding add_poll_slots
  init signal_id_from_name millis none = no_slots
  init signal_id_from_name millis (some defs) =
      add_poll_slots signal_id_from_name millis defs no_slots

  -- The slot, and the frame that is handed to `sendFrame`. Its answer is only logged.
  unfoldable pub poll_if_due : ℕ → PollSlot Float → PollSlot Float × List (List ℕ)
  unfolding build_request_frame time_reached
  poll_if_due now slot =
      if time_reached now slot.next_poll_ms
      then (
        record slot { next_poll_ms = add32 now slot.interval_ms },
        build_request_frame slot.mode slot.pid ∷ [],
      )
      else (slot, [])

  unfoldable pub poll_all : ℕ → List (PollSlot Float) → List (PollSlot Float) × List (List ℕ)
  unfolding poll_if_due
  poll_all now [] = ([], [])
  poll_all now (slot ∷ slots) =
      let (slot', sent) = poll_if_due now slot in
      let (slots', rest) = poll_all now slots in (slot' ∷ slots', sent ++ rest)

  -- The loop of `earliestNextPoll` from its running minimum.
  unfoldable pub earliest_from : ℕ → List (PollSlot Float) → ℕ
  earliest_from next_due [] = next_due
  earliest_from next_due (slot ∷ slots) =
      earliest_from (if before32 slot.next_poll_ms next_due then slot.next_poll_ms else next_due)
        slots

  unfoldable pub earliest_next_poll : List (PollSlot Float) → ℕ
  unfolding earliest_from
  earliest_next_poll [] = 0
  earliest_next_poll (slot ∷ slots) = earliest_from slot.next_poll_ms slots

  abbrev pub is_empty : List (PollSlot Float) → Bool
  is_empty [] = true
  is_empty (slot ∷ slots) = false

  unfoldable pub tick : ℕ → Poller Float → Poller Float × List (List ℕ)
  unfolding poll_all earliest_next_poll time_reached
  tick now p =
      if is_empty p.slots
      then (p, [])
      else if time_reached now p.next_due_ms
      then (let (slots, sent) = poll_all now p.slots in
          (record p { slots = slots; next_due_ms = earliest_next_poll slots }, sent))
      else (p, [])

  -- The slot loop of `onRxFrame`; the result is the call of `SignalStore::update`.
  unfoldable pub decode_from :
      Decode Float → Header → Buffer → ℕ → List (PollSlot Float) → Option (ℕ × Float)
  decode_from decode header bytes len [] = none
  decode_from decode header bytes len (slot ∷ slots) =
      let rest = decode_from decode header bytes len slots in
      if not (matches header slot.mode slot.pid)
      then rest
      else if not (fits_value_bytes slot.layout.start_byte slot.layout.byte_length len)
      then rest
      else some (slot.signal_id, decode bytes slot.layout len)

  -- `none` where the source returns false.
  unfoldable pub on_rx_frame : Decode Float → ℕ → Buffer → ℕ → Poller Float → Option (ℕ × Float)
  unfolding decode_from
  on_rx_frame decode frame_id bytes len p =
      if is_empty p.slots
      then none
      else if frame_id != response_frame_id
      then none
      else if (parse_header bytes len).valid
      then decode_from decode (parse_header bytes len) bytes len p.slots
      else none
