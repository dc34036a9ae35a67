-- ===== src/Tests/Parser.antt =====
-- The parser of src/can/can_parser.cpp on a table with a value of a frame and one that is computed from it.
use canshift_firmware.Prelude.{
  ℕ, ◌+◌, ◌*◌, ◌≤◌, ◌≡◌, ◌≢◌, refl, true, false, ◌&&◌, Option, none, some, List, [], ◌∷◌,
  if◌then◌else◌, ltb, leb, length, get_or, get_elem?, arith,
}
use canshift_firmware.Signals.{Store, SignalValue, init}
use canshift_firmware.Signals.Freshness.{init-IsStore, IsStore}
use canshift_firmware.Obd2.Poller.{Layout, Poller, Decode, response_frame_id}
use canshift_firmware.Can.Parser.{
  Env, RuntimeSignal, SignalDef, SignalConfig, Parser, blank, parse_frame, load_signal_definitions,
}
use canshift_firmware.Can.Parser.Rows.{IsOrdered}
use canshift_firmware.Can.Parser.Direct.{Holds, direct_slot, parse_frame_direct}
use canshift_firmware.Can.Parser.Cross.{consistent_slot, parse_frame_cross}
use canshift_firmware.Can.Parser.Table.{IsTable, IsAmong, load-IsTable}
use canshift_firmware.Obd2.Dtc.{rx_accepts, boot}
use canshift_firmware.Obd2.Dtc as Dtc
use canshift_firmware.Can.Route.{deliver}
use canshift_firmware.Can.Route.Separate.{deliver-separates}
use canshift_firmware.Tests.Sorting.{sort, sort-Sorts}

abbrev sum : List (ℕ × ℕ) → ℕ
sum [] = 0
sum ((t, v) ∷ refs) = v + sum refs

abbrev compile : List ℕ → ℕ → Option (List ℕ)
compile text room = if leb (length text) room && leb (length text) 64 then some text else none

abbrev env : Env ℕ ℕ
env = record {
  compile_expr = compile;
  decode_bytes = λ bytes layout. get_or bytes layout.start_byte 0 * layout.scale;
  eval_tokens = λ bytes layout tokens. length tokens;
  eval_tokens_refs = λ bytes layout tokens refs. length tokens + sum refs;
  is_finite = λ v. ltb v 1000;
  display_step = λ id old new elapsed valid. new;
  zero_value = 0;
  stored_at = λ r. 50;
}

abbrev byte_at : ℕ → Layout ℕ
byte_at k = record {
  start_byte = k;
  byte_length = 1;
  big_endian = true;
  is_signed = false;
  bit_mask = 255;
  scale = 10;
  offset = 0;
}

abbrev measured : RuntimeSignal ℕ
measured = record {
  can_frame_id = 256;
  layout = byte_at 1;
  signal_id = 3;
  has_expr = false;
  token_offset = 0;
  token_count = 0;
  ref_target_ids = [];
}

abbrev computed : RuntimeSignal ℕ
computed = record {
  can_frame_id = 256;
  layout = byte_at 0;
  signal_id = 5;
  has_expr = true;
  token_offset = 0;
  token_count = 2;
  ref_target_ids = 7 ∷ [];
}

abbrev table : Parser ℕ ℕ
table = record {
  runtime = measured ∷ computed ∷ [];
  targets = (7, 3) ∷ [];
  expr_pool = 1 ∷ 2 ∷ [];
  runtime_loaded = true;
}

abbrev unset : SignalValue ℕ
unset = record { raw = 0; display = 0; last_update_ms = 0; valid = false; timeout_ms = 500 }

abbrev fresh : Store ℕ
fresh = init 0 (record { signals = []; any_valid = false; non_finite_reported = false })

fresh-IsStore : IsStore fresh
fresh-IsStore =
    init-IsStore 0 (record { signals = []; any_valid = false; non_finite_reported = false })

slot_3 : get_elem? fresh.signals 3 ≡ some unset
unfolding init
slot_3 = refl

slot_5 : get_elem? fresh.signals 5 ≡ some unset
unfolding init
slot_5 = refl

table-IsOrdered : IsOrdered table.runtime
table-IsOrdered = ((omega arith, tt), (tt, tt))

parse_frame_direct_example :
    Holds env 3
      (direct_slot env table (9 ∷ 42 ∷ []) 3 measured unset)
      (parse_frame env 256 (9 ∷ 42 ∷ []) table fresh)
unfolding canshift_firmware.Can.Parser.Rows.swap_all canshift_firmware.Can.Parser.Rows.swap_at
parse_frame_direct_example =
    parse_frame_direct env table (computed ∷ measured ∷ []) 256 (9 ∷ 42 ∷ []) 3 measured unset fresh
      refl table-IsOrdered (0 ∷ [], refl) refl refl (slot_3, fresh-IsStore)

parse_frame_cross_example :
    Holds env 5
      (consistent_slot env table
        (9 ∷ 42 ∷ [])
        5
        computed
        (parse_frame env 256 (9 ∷ 42 ∷ []) table fresh)
        unset)
      (parse_frame env 256 (9 ∷ 42 ∷ []) table fresh)
unfolding canshift_firmware.Can.Parser.Rows.swap_all canshift_firmware.Can.Parser.Rows.swap_at
    canshift_firmware.Can.Parser.signal_for_target
parse_frame_cross_example =
    parse_frame_cross env table (computed ∷ measured ∷ []) 256 (9 ∷ 42 ∷ []) 5 computed unset fresh
      refl table-IsOrdered (0 ∷ [], refl) refl refl (refl, tt) (slot_5, fresh-IsStore)

-- 420 and two tokens.
computed_422 :
    get_elem? (parse_frame env 256 (9 ∷ 42 ∷ []) table fresh).signals 5
    ≡ some
        (record { raw = 422; display = 422; last_update_ms = 50; valid = true; timeout_ms = 500 })
unfolding parse_frame canshift_firmware.Signals.is_valid canshift_firmware.Signals.update init
    canshift_firmware.Signals.read
computed_422 = refl

compile_fits :
    (text : List ℕ) (room : ℕ) (tokens : List ℕ)
    → compile text room ≡ some tokens
    → (length tokens ≤ room) × (length tokens ≤ 64)
compile_fits text room tokens e = ground arith

abbrev definition : ℕ → ℕ → List ℕ → SignalDef ℕ ℕ
definition name id expr = record {
  name = name;
  can_frame_id = id;
  layout = byte_at 1;
  poll_interval_ms = 0;
  timeout_ms = 500;
  expr = expr;
  target_id = none;
  expr_refs = [];
}

abbrev config : SignalConfig ℕ ℕ
config = record {
  loaded = true;
  signals = definition 3 512 (1 ∷ 2 ∷ []) ∷ definition 4 256 (7 ∷ []) ∷ [];
}

load-IsTable_example :
    let out = load_signal_definitions env (λ n. n) sort config (blank, fresh) in
    IsTable env
      (λ n. n)
      sort
      compile_fits
      (IsAmong env (λ n. n) sort compile_fits config.signals)
      out.0
    × IsOrdered out.0.runtime
    × (out.0.runtime_loaded ≡ true)
load-IsTable_example =
    load-IsTable env (λ n. n) sort compile_fits config blank fresh sort-Sorts refl (omega arith)

abbrev poller : Poller ℕ
poller = record { slots = []; next_due_ms = 0; warned_slot_overflow = false }

abbrev first_byte : Decode ℕ
first_byte = λ bytes layout len. 1

deliver-separates_example :
    let out = deliver env first_byte 60 256 (9 ∷ 42 ∷ []) boot poller table fresh in
    (256 ≢ response_frame_id → out ≡ (boot, parse_frame env 256 (9 ∷ 42 ∷ []) table fresh))
    × (rx_accepts boot.pending 256 (some (9 ∷ 42 ∷ [])) 2 ≡ true
        → out ≡ ((Dtc.on_rx_frame 256 (some (9 ∷ 42 ∷ [])) 2 boot).0, fresh))
    × (rx_accepts boot.pending 256 (some (9 ∷ 42 ∷ [])) 2 ≡ false → out.0 ≡ boot)
deliver-separates_example =
    deliver-separates env first_byte 60 256 (9 ∷ 42 ∷ []) boot poller table fresh
