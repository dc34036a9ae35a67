-- ===== src/Signals.antt =====
-- src/runtime/signal_store.cpp: the latest value of each signal, and when it goes stale. Values are
-- a type `Float` with its test for finiteness; `signal_display_step_rs` (rust/signal-map) is an
-- argument. Each operation is one critical section; Signals/Race takes two of them apart.
pub mod Freshness
pub mod History
pub mod Lifetime
pub mod Race
use canshift_firmware.Prelude.{
  ℕ, zero, suc, ◌+◌, Bool, true, false, not, ◌&&◌, ◌||◌, Option, none, some, List, [], ◌∷◌,
  if◌then◌else◌, ltb, leb, ◌==◌, length, get_elem?, set, replicate, sub32,
}

abbrev pub max_signals : ℕ
max_signals = 64

abbrev pub default_timeout_ms : ℕ
default_timeout_ms = 500

pub record SignalValue (Float : Type 0) : Type 0 where
  pub raw : Float
  pub display : Float
  pub last_update_ms : ℕ
  pub valid : Bool
  pub timeout_ms : ℕ

pub record Store (Float : Type 0) : Type 0 where
  pub signals : List (SignalValue Float)
  pub any_valid : Bool
  pub non_finite_reported : Bool

-- `signal_display_step_rs`: the signal, its displayed value, the new one, the time since the last
-- update, and whether the displayed value counts.
abbrev pub DisplayStep : Type 0 → Type 0
DisplayStep Float = ℕ → Float → Float → ℕ → Bool → Float

module _ {Float : Type 0} where
  unfoldable pub init : Float → Store Float → Store Float
  init zero_value s = record s {
    signals = replicate max_signals (record {
      raw = zero_value;
      display = zero_value;
      last_update_ms = 0;
      valid = false;
      timeout_ms = default_timeout_ms;
    });
    any_valid = false;
  }

  unfoldable pub expire_if_stale : ℕ → SignalValue Float → SignalValue Float × Bool
  expire_if_stale now signal =
      if not signal.valid
      then (signal, false)
      else if leb (sub32 now signal.last_update_ms) signal.timeout_ms
      then (signal, true)
      else (record signal { valid = false }, false)

  unfoldable pub accepts_value : (Float → Bool) → ℕ → Float → Store Float → Store Float × Bool
  accepts_value is_finite id value s =
      if ltb id max_signals
      then (if is_finite value then (s, true) else (record s { non_finite_reported = true }, false))
      else (s, false)

  -- The slot that an update writes.
  abbrev pub updated : DisplayStep Float → ℕ → Float → ℕ → SignalValue Float → SignalValue Float
  updated display_step id value now sig = record sig {
    display = display_step id sig.display value (sub32 now sig.last_update_ms) sig.valid;
    raw = value;
    last_update_ms = now;
    valid = true;
  }

  -- The critical section of `update`, and the store to `s_anyValid` behind it.
  unfoldable pub update_slot : DisplayStep Float → ℕ → Float → ℕ → Store Float → Store Float
  update_slot display_step id value now s = elim (get_elem? s.signals id) [
    | none ↦ s
    | some sig ↦ record s { signals = set s.signals id (updated display_step id value now sig) }
  ]

  unfoldable pub mark_any_valid : Bool → Store Float → Store Float
  mark_any_valid any s = record s { any_valid = any }

  unfoldable pub update :
      (Float → Bool) → DisplayStep Float → ℕ → Float → ℕ → Store Float → Store Float
  unfolding accepts_value update_slot mark_any_valid
  update is_finite display_step id value now s =
      let (s', accepted) = accepts_value is_finite id value s in
      if accepted then mark_any_valid true (update_slot display_step id value now s') else s'

  -- What a reader sees of a slot, `none` for an invalid one or no slot.
  abbrev visible : (SignalValue Float → Float) → Option (SignalValue Float) → Float → Float
  visible field none default = default
  visible field (some sig) default = if sig.valid then field sig else default

  unfoldable pub read : ℕ → Float → Store Float → Float
  read id default s =
      if ltb id max_signals
      then visible (λ sig. sig.raw) (get_elem? s.signals id) default
      else default

  unfoldable pub read_display : ℕ → Float → Store Float → Float
  read_display id default s =
      if ltb id max_signals
      then visible (λ sig. sig.display) (get_elem? s.signals id) default
      else default

  abbrev slot_valid : Option (SignalValue Float) → Bool
  slot_valid none = false
  slot_valid (some sig) = sig.valid

  unfoldable pub is_valid : ℕ → Store Float → Bool
  is_valid id s = if ltb id max_signals then slot_valid (get_elem? s.signals id) else false

  -- `none` where nothing is written through the pointer; the target is `false` for null.
  unfoldable pub try_read_display : ℕ → Bool → Store Float → Option Float × Bool
  try_read_display id target s =
      if not (ltb id max_signals) || not target
      then (none, false)
      else elim (get_elem? s.signals id) [
        | none ↦ (none, false)
        | some sig ↦ (some sig.display, sig.valid)
      ]

  unfoldable pub any_valid_of : List ℕ → Store Float → Bool
  unfolding is_valid
  any_valid_of [] s = false
  any_valid_of (id ∷ ids) s = is_valid id s || any_valid_of ids s

  unfoldable pub snapshot_all : Store Float → List (SignalValue Float)
  snapshot_all s = s.signals

  unfoldable pub set_timeout : ℕ → ℕ → Store Float → Store Float
  set_timeout id timeout_ms s =
      if ltb id max_signals
      then elim (get_elem? s.signals id) [
        | none ↦ s
        | some sig ↦ record s {
          signals = set s.signals id (record sig { timeout_ms = timeout_ms });
        }
      ]
      else s

  -- The loop of `checkTimeouts`: the slots, and `stillValid`.
  unfoldable pub expire_all : ℕ → List (SignalValue Float) → List (SignalValue Float) × Bool
  unfolding expire_if_stale
  expire_all now [] = ([], false)
  expire_all now (sig ∷ sigs) =
      let (sig', fresh) = expire_if_stale now sig in
      let (sigs', rest) = expire_all now sigs in (sig' ∷ sigs', fresh || rest)

  -- The critical section of `checkTimeouts`, with the `stillValid` that it computes.
  unfoldable pub sweep : ℕ → Store Float → Store Float × Bool
  unfolding expire_all
  sweep now s =
      let (sigs, still_valid) = expire_all now s.signals in
      (record s { signals = sigs }, still_valid)

  unfoldable pub check_timeouts : ℕ → Store Float → Store Float
  unfolding sweep mark_any_valid
  check_timeouts now s =
      if s.any_valid
      then (let (s', still_valid) = sweep now s in mark_any_valid still_valid s')
      else s
