-- ===== src/Can/Parser.antt =====
-- src/can/can_parser.cpp: the table of signals that is filled from the configuration, and the decoding of
-- frames into the signal store. What rust/can-parser computes, the catalogue of names and `std::sort` are
-- arguments; floating-point numbers are a type `Float`.
pub mod Rows
pub mod Direct
pub mod Cross
pub mod Pool
pub mod Table
use canshift_firmware.Prelude.{
  ℕ, ◌+◌, ◌-◌, Bool, true, false, not, ◌&&◌, ◌||◌, Option, none, some, List, [], ◌∷◌, ◌++◌,
  if◌then◌else◌, ltb, leb, ◌==◌, length, take, drop, u8, u16,
}
use canshift_firmware.Signals.{Store, DisplayStep, max_signals, update, read, is_valid, set_timeout}
use canshift_firmware.Obd2.Poller.{Layout, signal_count}

-- `kConfigMaxSignals`
abbrev pub config_max_signals : ℕ
config_max_signals = 48

abbrev pub expr_pool_tokens : ℕ
expr_pool_tokens = 512

-- The fields of `CfgSignalDef` that the parser reads.
pub record SignalDef (Name Float : Type 0) : Type 0 where
  pub name : Name
  pub can_frame_id : ℕ
  pub layout : Layout Float
  pub poll_interval_ms : ℕ
  pub timeout_ms : ℕ
  pub expr : List ℕ
  pub target_id : Option ℕ
  pub expr_refs : List ℕ

pub record SignalConfig (Name Float : Type 0) : Type 0 where
  pub loaded : Bool
  pub signals : List (SignalDef Name Float)

pub record RuntimeSignal (Float : Type 0) : Type 0 where
  pub can_frame_id : ℕ
  pub layout : Layout Float
  pub signal_id : ℕ
  pub has_expr : Bool
  pub token_offset : ℕ
  pub token_count : ℕ
  pub ref_target_ids : List ℕ

-- The functions of rust/can-parser, of which `compile_expr` gets the room that is left and answers `none` where
-- its status is not positive; what the signal store is given; and the time at which a row's value is stored.
pub record Env (Float Token : Type 0) : Type 0 where
  pub compile_expr : List ℕ → ℕ → Option (List Token)
  pub decode_bytes : List ℕ → Layout Float → Float
  pub eval_tokens : List ℕ → Layout Float → List Token → Float
  pub eval_tokens_refs : List ℕ → Layout Float → List Token → List (ℕ × Float) → Float
  pub is_finite : Float → Bool
  pub display_step : DisplayStep Float
  pub zero_value : Float
  pub stored_at : RuntimeSignal Float → ℕ

-- The statics, the arrays up to their counts.
pub record Parser (Float Token : Type 0) : Type 0 where
  pub runtime : List (RuntimeSignal Float)
  pub targets : List (ℕ × ℕ)
  pub expr_pool : List Token
  pub runtime_loaded : Bool

-- The table as it is when it is filled again.
abbrev pub blank : {Float Token : Type 0} → Parser Float Token
blank = record { runtime = []; targets = []; expr_pool = []; runtime_loaded = false }

-- What `std::lower_bound` gives, to the end of the table.
pub from_id : {Float : Type 0} → ℕ → List (RuntimeSignal Float) → List (RuntimeSignal Float)
from_id id [] = []
from_id id (r ∷ rs) = if ltb r.can_frame_id id then from_id id rs else r ∷ rs

-- The rows of an identifier from there on, which both loops of `parseFrame` go through.
pub run_of_id : {Float : Type 0} → ℕ → List (RuntimeSignal Float) → List (RuntimeSignal Float)
run_of_id id [] = []
run_of_id id (r ∷ rs) = if r.can_frame_id == id then r ∷ run_of_id id rs else []

unfoldable pub frame_rows :
    {Float : Type 0} → ℕ → List (RuntimeSignal Float) → List (RuntimeSignal Float)
unfolding from_id run_of_id
frame_rows id rs = run_of_id id (from_id id rs)

unfoldable pub signal_for_target : ℕ → List (ℕ × ℕ) → ℕ
signal_for_target target [] = signal_count
signal_for_target target ((t, sid) ∷ targets) =
    if t == target then sid else signal_for_target target targets

module _ {Name Float Token : Type 0} (env : Env Float Token) (signal_id_from_name : Name → ℕ)
    (sort : List (RuntimeSignal Float) → List (RuntimeSignal Float)) where
  -- The row without its expression.
  unfoldable pub fill_runtime_signal : SignalDef Name Float → ℕ → RuntimeSignal Float
  fill_runtime_signal def sid = record {
    can_frame_id = def.can_frame_id;
    layout = def.layout;
    signal_id = sid;
    has_expr = false;
    token_offset = 0;
    token_count = 0;
    ref_target_ids = def.expr_refs;
  }

  -- The row with its expression, and the pool.
  unfoldable pub compile_expression :
      SignalDef Name Float
      → RuntimeSignal Float
      → List Token
      → Option (RuntimeSignal Float × List Token)
  compile_expression def r pool =
      if length def.expr == 0
      then some (r, pool)
      else elim (env.compile_expr def.expr (expr_pool_tokens - length pool)) [
        | none ↦ none
        | some tokens ↦ some (
          record r {
            has_expr = true;
            token_offset = u16 (length pool);
            token_count = u8 (length tokens);
          },
          pool ++ tokens,
        )
      ]

  -- `none` where it answers false.
  unfoldable pub add_broadcast_decode :
      SignalDef Name Float → ℕ → Parser Float Token → Option (Parser Float Token)
  unfolding compile_expression fill_runtime_signal
  add_broadcast_decode def sid p =
      elim (compile_expression def (fill_runtime_signal def sid) p.expr_pool) [
        | none ↦ none
        | some (r, pool) ↦ some (record p { runtime = p.runtime ++ (r ∷ []); expr_pool = pool })
      ]

  unfoldable pub bind_target : SignalDef Name Float → ℕ → Parser Float Token → Parser Float Token
  bind_target def sid p = elim def.target_id [
    | none ↦ p
    | some target ↦
        if leb config_max_signals (length p.targets)
        then p
        else record p { targets = p.targets ++ ((target, sid) ∷ []) }
  ]

  unfoldable pub add_runtime_signal :
      SignalDef Name Float → Parser Float Token × Store Float → Parser Float Token × Store Float
  unfolding add_broadcast_decode bind_target
  add_runtime_signal def (p, s) =
      let sid = signal_id_from_name def.name in
      let added = if def.poll_interval_ms == 0 then add_broadcast_decode def sid p else some p in
      if sid == signal_count then (p, s) else elim added [
        | none ↦ (p, s)
        | some p' ↦ (bind_target def sid p', set_timeout sid def.timeout_ms s)
      ]

  unfoldable pub add_runtime_signals :
      List (SignalDef Name Float)
      → Parser Float Token × Store Float
      → Parser Float Token × Store Float
  unfolding add_runtime_signal
  add_runtime_signals [] (p, s) = (p, s)
  add_runtime_signals (def ∷ defs) (p, s) =
      let rest = add_runtime_signals defs (add_runtime_signal def (p, s)) in
      if ltb (length p.runtime) config_max_signals then rest else (p, s)

  unfoldable pub load_signal_definitions :
      SignalConfig Name Float → Parser Float Token × Store Float → Parser Float Token × Store Float
  unfolding add_runtime_signals
  load_signal_definitions cfg (p, s) =
      let (p', s') = add_runtime_signals cfg.signals (blank, s) in
      if not cfg.loaded || (length cfg.signals == 0)
      then (p, s)
      else (record p' { runtime = sort p'.runtime; runtime_loaded = true }, s')

-- The tokens of a row.
unfoldable pub tokens_of : {Float Token : Type 0} → RuntimeSignal Float → List Token → List Token
tokens_of r pool = take r.token_count (drop r.token_offset pool)

unfoldable pub fits : {Float : Type 0} → RuntimeSignal Float → List ℕ → Bool
fits r bytes = leb (r.layout.start_byte + r.layout.byte_length) (length bytes)

-- `refCount == 0`
abbrev pub is_direct : {Float : Type 0} → RuntimeSignal Float → Bool
is_direct r = length r.ref_target_ids == 0

module _ {Float Token : Type 0} (env : Env Float Token) where
  unfoldable pub store_reading : RuntimeSignal Float → Float → Store Float → Store Float
  store_reading r value s =
      if env.is_finite value
      then update env.is_finite env.display_step r.signal_id value (env.stored_at r) s
      else s

  -- `none` where it answers false.
  unfoldable pub resolve_refs : List ℕ → List (ℕ × ℕ) → Store Float → Option (List (ℕ × Float))
  unfolding signal_for_target
  resolve_refs [] targets s = some []
  resolve_refs (target ∷ refs) targets s =
      let sid = signal_for_target target targets in
      let rest = resolve_refs refs targets s in
      if leb max_signals sid || not (is_valid sid s) then none else elim rest [
        | none ↦ none
        | some values ↦ some ((target, read sid env.zero_value s) ∷ values)
      ]

  unfoldable pub direct_value : Parser Float Token → List ℕ → RuntimeSignal Float → Float
  unfolding tokens_of
  direct_value p bytes r =
      if not r.has_expr
      then env.decode_bytes bytes r.layout
      else env.eval_tokens bytes r.layout (tokens_of r p.expr_pool)

  unfoldable pub eval_cross_signal :
      Parser Float Token → List ℕ → RuntimeSignal Float → Store Float → Store Float
  unfolding resolve_refs store_reading tokens_of
  eval_cross_signal p bytes r s = elim (resolve_refs r.ref_target_ids p.targets s) [
    | none ↦ s
    | some refs ↦
        store_reading r (env.eval_tokens_refs bytes r.layout (tokens_of r p.expr_pool) refs) s
  ]

  -- The first loop of `parseFrame`.
  unfoldable pub decode_direct :
      Parser Float Token → List ℕ → List (RuntimeSignal Float) → Store Float → Store Float
  unfolding direct_value store_reading fits
  decode_direct p bytes [] s = s
  decode_direct p bytes (r ∷ rs) s =
      decode_direct p bytes rs
        (if is_direct r && fits r bytes then store_reading r (direct_value p bytes r) s else s)

  -- The second one.
  unfoldable pub decode_cross :
      Parser Float Token → List ℕ → List (RuntimeSignal Float) → Store Float → Store Float
  unfolding eval_cross_signal fits
  decode_cross p bytes [] s = s
  decode_cross p bytes (r ∷ rs) s =
      decode_cross p bytes rs
        (if not (is_direct r) && fits r bytes then eval_cross_signal p bytes r s else s)

  unfoldable pub parse_frame : ℕ → List ℕ → Parser Float Token → Store Float → Store Float
  unfolding frame_rows decode_direct decode_cross
  parse_frame id bytes p s =
      let rows = frame_rows id p.runtime in
      if p.runtime_loaded then decode_cross p bytes rows (decode_direct p bytes rows s) else s
