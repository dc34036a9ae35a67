-- ===== src/Inputs.antt =====
-- src/runtime/input_buttons.cpp: the debouncing of the input pins, and the taps, double taps and long
-- presses that it makes of them. `digitalRead` of a pin, the alert takeover (src/ui/alert_takeover.cpp),
-- the catalogue of signal names and the stored values are arguments; what a press asks of other parts
-- is a value. Times are `uint32_t`.
pub mod Gestures
pub mod Debounce
pub mod Actions
use canshift_firmware.Prelude.{
  ℕ, zero, suc, Bool, true, false, not, ◌&&◌, ◌||◌, Option, none, some, List, [], ◌∷◌, ◌++◌,
  if◌then◌else◌, ltb, leb, ◌==◌, take, sub32, map,
}

abbrev pub long_press_ms : ℕ
long_press_ms = 600

abbrev pub double_tap_gap_ms : ℕ
double_tap_gap_ms = 250

abbrev pub cfg_max_input_bindings : ℕ
cfg_max_input_bindings = 16

-- `SignalIds::kSignalCount`, which stands for "no such name".
abbrev pub signal_count : ℕ
signal_count = 64

pub data Active : Type 0 where
  active_low active_high : Active

pub data PressKind : Type 0 where
  unknown short_press long_press double_press : PressKind

-- The fields of `CfgInputBinding` that the scan reads; a negative pin is `none`.
pub record Binding (Action : Type 0) : Type 0 where
  pub pin : Option ℕ
  pub active : Active
  pub debounce_ms : ℕ
  pub kind : PressKind
  pub action : Action
  pub signal : List ℕ

pub record BindingState : Type 0 where
  pub raw_prev : Bool
  pub debounced_pressed : Bool
  pub last_edge_ms : ℕ
  pub press_start_ms : ℕ
  pub last_release_ms : ℕ
  pub long_fired_this_press : Bool
  pub pending_double_armed : Bool

-- The zeroes of `memset`.
abbrev pub released_state : BindingState
released_state = record {
  raw_prev = false;
  debounced_pressed = false;
  last_edge_ms = 0;
  press_start_ms = 0;
  last_release_ms = 0;
  long_fired_this_press = false;
  pending_double_armed = false;
}

-- What a press asks of the alert takeover, of the action dispatcher and of the signal store.
pub data Effect (Action : Type 0) : Type 0 where
  acknowledge : Effect Action
  dispatch : Action → Effect Action
  set_signal : ℕ → Bool → Effect Action

pub data Edge : Type 0 where
  pressed released holding idle : Edge

unfoldable pub edge_of : Bool → Bool → Edge
edge_of true true = holding
edge_of false false = idle
edge_of true false = pressed
edge_of false true = released

-- `digitalRead(pin) == HIGH` is the second argument.
unfoldable pub is_pressed_now : Active → Bool → Bool
is_pressed_now active_low high = not high
is_pressed_now active_high high = high

abbrev pub kind_eq : PressKind → PressKind → Bool
kind_eq unknown unknown = true
kind_eq short_press short_press = true
kind_eq long_press long_press = true
kind_eq double_press double_press = true
kind_eq _ _ = false

-- The state, and the kinds of press handed to `firePress`.
unfoldable pub on_pressed : BindingState → ℕ → BindingState × List PressKind
on_pressed s now =
    (record s { debounced_pressed = true; press_start_ms = now; long_fired_this_press = false }, [])

unfoldable pub register_tap : BindingState → ℕ → BindingState × List PressKind
register_tap s now =
    if s.pending_double_armed && leb (sub32 now s.last_release_ms) double_tap_gap_ms
    then (record s { pending_double_armed = false }, double_press ∷ [])
    else (record s { pending_double_armed = true }, [])

unfoldable pub on_released : BindingState → ℕ → BindingState × List PressKind
unfolding register_tap
on_released s now =
    let up = record s { debounced_pressed = false } in
    let (tapped, fired) =
      if ltb (sub32 now s.press_start_ms) long_press_ms then register_tap up now else (up, []) in
    (record tapped { last_release_ms = now }, fired)

unfoldable pub on_holding : BindingState → ℕ → BindingState × List PressKind
on_holding s now =
    if s.long_fired_this_press || ltb (sub32 now s.press_start_ms) long_press_ms
    then (s, [])
    else (record s { long_fired_this_press = true; pending_double_armed = false }, long_press ∷ [])

unfoldable pub flush_pending_short_press : BindingState → ℕ → BindingState × List PressKind
flush_pending_short_press s now =
    if not s.pending_double_armed
      || (s.debounced_pressed || leb (sub32 now s.last_release_ms) double_tap_gap_ms)
    then (s, [])
    else (record s { pending_double_armed = false }, short_press ∷ [])

-- `kEdgeHandlers`
unfoldable pub handle_edge : Edge → BindingState → ℕ → BindingState × List PressKind
unfolding on_pressed on_released on_holding
handle_edge pressed s now = on_pressed s now
handle_edge released s now = on_released s now
handle_edge holding s now = on_holding s now
handle_edge idle s now = (s, [])

-- `scanBinding` behind the debouncing, for a level that has settled.
unfoldable pub scan_settled : Bool → ℕ → BindingState → BindingState × List PressKind
unfolding edge_of handle_edge flush_pending_short_press
scan_settled raw now s =
    let (handled, fired) = handle_edge (edge_of raw s.debounced_pressed) s now in
    let (flushed, more) = flush_pending_short_press handled now in (flushed, fired ++ more)

-- `rawPrev` and `lastEdgeMs` follow the level.
unfoldable pub note_edge : Bool → ℕ → BindingState → BindingState
note_edge true now s = if s.raw_prev then s else record s { raw_prev = true; last_edge_ms = now }
note_edge false now s = if s.raw_prev then record s { raw_prev = false; last_edge_ms = now } else s

unfoldable pub scan_binding : ℕ → Bool → ℕ → BindingState → BindingState × List PressKind
unfolding note_edge scan_settled
scan_binding debounce_ms raw now s =
    let noted = note_edge raw now s in
    let settled = scan_settled raw now noted in
    if ltb (sub32 now noted.last_edge_ms) debounce_ms then (noted, []) else settled

module _ {Action : Type 0} where
  -- `is_on` is whether the stored value of a signal differs from zero.
  unfoldable pub sync_shared_signal :
      (List ℕ → ℕ) → (ℕ → Bool) → Binding Action → List (Effect Action)
  sync_shared_signal signal_id_from_name is_on b = elim b.signal [
    | [] ↦ []
    | c ∷ cs ↦
        (let id = signal_id_from_name (c ∷ cs) in
          if leb signal_count id then [] else set_signal id (not (is_on id)) ∷ [])
  ]

  unfoldable pub fire_press :
      (List ℕ → ℕ) → (ℕ → Bool) → Bool → Binding Action → PressKind → List (Effect Action)
  unfolding sync_shared_signal
  fire_press signal_id_from_name is_on takeover b detected =
      if not (kind_eq b.kind detected)
      then []
      else if takeover
      then acknowledge ∷ []
      else dispatch b.action ∷ sync_shared_signal signal_id_from_name is_on b

  unfoldable pub fire_all :
      (List ℕ → ℕ) → (ℕ → Bool) → Bool → Binding Action → List PressKind → List (Effect Action)
  unfolding fire_press
  fire_all signal_id_from_name is_on takeover b [] = []
  fire_all signal_id_from_name is_on takeover b (kind ∷ kinds) =
      fire_press signal_id_from_name is_on takeover b kind
      ++ fire_all signal_id_from_name is_on takeover b kinds

  -- Which signals differ from zero once the signals have been set.
  unfoldable pub after_effects : List (Effect Action) → (ℕ → Bool) → ℕ → Bool
  after_effects [] is_on = is_on
  after_effects (acknowledge ∷ es) is_on = after_effects es is_on
  after_effects (dispatch action ∷ es) is_on = after_effects es is_on
  after_effects (set_signal id on ∷ es) is_on =
      after_effects es (λ other. if other == id then on else is_on other)

  unfoldable pub scan_pin :
      (List ℕ → ℕ)
      → (ℕ → Bool)
      → Bool
      → Bool
      → ℕ
      → Binding Action
      → BindingState
      → BindingState × List (Effect Action)
  unfolding is_pressed_now scan_binding fire_all
  scan_pin signal_id_from_name is_on takeover high now b s =
      let (s', kinds) = scan_binding b.debounce_ms (is_pressed_now b.active high) now s in
      (s', fire_all signal_id_from_name is_on takeover b kinds)

  -- The loop over the bindings with their states; `high` is `digitalRead` of a pin.
  unfoldable pub scan_each :
      (List ℕ → ℕ)
      → (ℕ → Bool)
      → Bool
      → (ℕ → Bool)
      → ℕ
      → List (Binding Action × BindingState)
      → List (Binding Action × BindingState) × List (Effect Action)
  unfolding scan_pin after_effects
  scan_each signal_id_from_name is_on takeover high now [] = ([], [])
  scan_each signal_id_from_name is_on takeover high now ((b, s) ∷ rest) = elim b.pin [
    | none ↦
        (let (rest', later) = scan_each signal_id_from_name is_on takeover high now rest in
          ((b, s) ∷ rest', later))
    | some pin ↦
        (let (s', effects) = scan_pin signal_id_from_name is_on takeover (high pin) now b s in
          let (rest', later) =
            scan_each signal_id_from_name (after_effects effects is_on) takeover high now rest in
          ((b, s') ∷ rest', effects ++ later))
  ]

  -- `init` of a loaded configuration: every state is zeroed, and 16 bindings are kept.
  unfoldable pub init : List (Binding Action) → List (Binding Action × BindingState)
  init bindings = map (λ b. (b, released_state)) (take cfg_max_input_bindings bindings)
