-- ===== src/Can/Parser/Direct.antt =====
-- What a frame does to the slots of the signal store, through src/can/can_parser.cpp.
use canshift_firmware.Prelude.{
  ℕ, ◌≤◌, ◌≡◌, refl, sym, ap, ◌∙◌, subst, Bool, true, false, ◌&&◌, some, List, [], ◌∷◌,
  if◌then◌else◌, ◌==◌, length, get_elem?, arith, Bool-cases, Option-cases, inl, inr, if_lem, not,
}
use canshift_firmware.Signals.{Store, SignalValue}
use canshift_firmware.Signals.Freshness.{IsStore}
use canshift_firmware.Signals.History.{on_update, slot_step, slot-run}
use canshift_firmware.Can.Parser.{
  Env, RuntimeSignal, Parser, frame_rows, store_reading, fits, direct_value, resolve_refs,
  tokens_of, is_direct, eval_cross_signal, decode_direct, decode_cross, parse_frame,
}
use canshift_firmware.Can.Parser.Rows.{
  Reorders, filter, filter-Reorders, filter-filter, IsOrdered, is_of, frame_rows-filter,
}

module _ {Float Token : Type 0} (env : Env Float Token) where
  abbrev pub feeds : ℕ → RuntimeSignal Float → Bool
  feeds i r = r.signal_id == i

  -- What a value of a row does to slot `i`.
  abbrev pub stored : ℕ → RuntimeSignal Float → Float → SignalValue Float → SignalValue Float
  stored i r value sig =
      slot_step env.is_finite env.display_step i (on_update r.signal_id value (env.stored_at r)) sig

  -- What a row without references does to it.
  abbrev pub direct_slot :
      Parser Float Token → List ℕ → ℕ → RuntimeSignal Float → SignalValue Float → SignalValue Float
  direct_slot p bytes i r sig =
      if is_direct r && fits r bytes then stored i r (direct_value env p bytes r) sig else sig

  abbrev pub Holds : ℕ → SignalValue Float → Store Float → Type 0
  Holds i sig s = (get_elem? s.signals i ≡ some sig) × IsStore s

  pub store_lem :
      (r : RuntimeSignal Float) (value : Float) (i : ℕ) (sig : SignalValue Float) (s : Store Float)
      → Holds i sig s
      → Holds i (stored i r value sig) (store_reading env r value s)
  unfolding store_reading
  store_lem r value i sig s (e, v) =
      if_lem (Holds i (stored i r value sig)) (env.is_finite value) _ s
        (λ f.
          slot-run env.is_finite env.display_step
            (on_update r.signal_id value (env.stored_at r) ∷ []) s i sig v e)
        (λ f.
          let same : stored i r value sig ≡ sig = ground arith in
          subst (λ sig'. Holds i sig' s) (sym same) (e, v))

  direct_step : Parser Float Token → List ℕ → RuntimeSignal Float → Store Float → Store Float
  direct_step p bytes r s =
      if is_direct r && fits r bytes then store_reading env r (direct_value env p bytes r) s else s

  direct_step_lem :
      (p : Parser Float Token) (bytes : List ℕ) (r : RuntimeSignal Float) (i : ℕ)
      (sig : SignalValue Float) (s : Store Float)
      → Holds i sig s
      → Holds i (direct_slot p bytes i r sig) (direct_step p bytes r s)
  unfolding direct_step
  direct_step_lem p bytes r i sig s h = elim (Bool-cases (is_direct r && fits r bytes)) [
    | inl e ↦ rw (e, direct_step) (store_lem r (direct_value env p bytes r) i sig s h)
    | inr e ↦ rw (e, direct_step) h
  ]

  -- The rows one after the other, as far as slot `i` is concerned.
  direct_slots :
      Parser Float Token
      → List ℕ
      → ℕ
      → List (RuntimeSignal Float)
      → SignalValue Float
      → SignalValue Float
  direct_slots p bytes i [] sig = sig
  direct_slots p bytes i (r ∷ rs) sig = direct_slots p bytes i rs (direct_slot p bytes i r sig)

  direct_lem :
      (p : Parser Float Token) (bytes : List ℕ) (i : ℕ) (rs : List (RuntimeSignal Float))
      (sig : SignalValue Float) (s : Store Float)
      → Holds i sig s
      → Holds i (direct_slots p bytes i rs sig) (decode_direct env p bytes rs s)
  unfolding direct_slots decode_direct direct_step
  direct_lem p bytes i [] sig s h = h
  direct_lem p bytes i (r ∷ rs) sig s h =
      direct_lem p bytes i rs (direct_slot p bytes i r sig) (direct_step p bytes r s)
        (direct_step_lem p bytes r i sig s h)

  -- Only the rows of the signal count.
  direct_slots-filter :
      (p : Parser Float Token) (bytes : List ℕ) (i : ℕ) (rs : List (RuntimeSignal Float))
      (sig : SignalValue Float)
      → direct_slots p bytes i rs sig ≡ direct_slots p bytes i (filter (feeds i) rs) sig
  unfolding direct_slots
  direct_slots-filter p bytes i [] sig = refl
  direct_slots-filter p bytes i (r ∷ rs) sig = elim (Bool-cases (feeds i r)) [
    | inl e ↦
        let kept : filter (feeds i) (r ∷ rs) ≡ r ∷ filter (feeds i) rs = rw e refl in
        direct_slots-filter p bytes i rs (direct_slot p bytes i r sig)
        ∙ ap (λ l. direct_slots p bytes i l sig) (sym kept)
    | inr e ↦
        let same : direct_slot p bytes i r sig ≡ sig = ground arith in
        let dropped : filter (feeds i) (r ∷ rs) ≡ filter (feeds i) rs = rw e refl in
        ap (direct_slots p bytes i rs) same
        ∙ direct_slots-filter p bytes i rs sig
        ∙ ap (λ l. direct_slots p bytes i l sig) (sym dropped)
  ]

  -- A row that another signal owns leaves the slot alone, and so does one with references while the direct
  -- ones are decoded.
  cross_lem :
      (p : Parser Float Token) (bytes : List ℕ) (r : RuntimeSignal Float) (i : ℕ)
      (sig : SignalValue Float) (s : Store Float)
      → feeds i r ≡ false
      → Holds i sig s
      → Holds i sig (eval_cross_signal env p bytes r s)
  unfolding eval_cross_signal
  cross_lem p bytes r i sig s n h =
      elim (Option-cases (resolve_refs env r.ref_target_ids p.targets s)) [
        | inl e ↦ rw (e, eval_cross_signal) h
        | inr (refs, e) ↦
            let value = env.eval_tokens_refs bytes r.layout (tokens_of r p.expr_pool) refs in
            let same : stored i r value sig ≡ sig = ground arith in
            rw (e, eval_cross_signal)
              (subst (λ sig'. Holds i sig' (store_reading env r value s)) same
                (store_lem r value i sig s h))
      ]

  abbrev pub is_cross_of : ℕ → RuntimeSignal Float → Bool
  is_cross_of i r = feeds i r && not (is_direct r)

  pub step_other :
      (p : Parser Float Token) (bytes : List ℕ) (r : RuntimeSignal Float) (i : ℕ)
      (sig : SignalValue Float) (s : Store Float)
      → is_cross_of i r ≡ false
      → Holds i sig s
      → Holds i sig
          (if not (is_direct r) && fits r bytes then eval_cross_signal env p bytes r s else s)
  step_other p bytes r i sig s n h =
      if_lem (Holds i sig) (not (is_direct r) && fits r bytes) _ s
        (λ e. let other : feeds i r ≡ false = ground arith in cross_lem p bytes r i sig s other h)
        (λ e. h)

  pub cross_other :
      (p : Parser Float Token) (bytes : List ℕ) (i : ℕ) (rs : List (RuntimeSignal Float))
      (sig : SignalValue Float) (s : Store Float)
      → filter (is_cross_of i) rs ≡ []
      → Holds i sig s
      → Holds i sig (decode_cross env p bytes rs s)
  unfolding decode_cross
  cross_other p bytes i [] sig s n h = h
  cross_other p bytes i (r ∷ rs) sig s n h =
      let none_here : is_cross_of i r ≡ false = ground arith in
      let none_later : filter (is_cross_of i) rs ≡ [] = ground arith in
      cross_other p bytes i rs sig
        (if not (is_direct r) && fits r bytes then eval_cross_signal env p bytes r s else s)
        none_later (step_other p bytes r i sig s none_here h)

  pub direct_single :
      (p : Parser Float Token) (bytes : List ℕ) (i : ℕ) (rs : List (RuntimeSignal Float))
      (r : RuntimeSignal Float) (sig : SignalValue Float) (s : Store Float)
      → filter (feeds i) rs ≡ r ∷ []
      → Holds i sig s
      → Holds i (direct_slot p bytes i r sig) (decode_direct env p bytes rs s)
  unfolding direct_slots
  direct_single p bytes i rs r sig s e h =
      subst (λ sig'. Holds i sig' (decode_direct env p bytes rs s))
        (direct_slots-filter p bytes i rs sig ∙ ap (λ l. direct_slots p bytes i l sig) e)
        (direct_lem p bytes i rs sig s h)

  pub cross_rows :
      (i : ℕ) (rs : List (RuntimeSignal Float)) (r : RuntimeSignal Float)
      → filter (feeds i) rs ≡ r ∷ []
      → filter (is_cross_of i) rs ≡ (if is_direct r then [] else r ∷ [])
  cross_rows i rs r e =
      let cross : RuntimeSignal Float → Bool = λ r. not (is_direct r) in
      sym (filter-filter cross (feeds i) rs) ∙ ap (filter cross) e ∙ ground arith

  -- The rows of a frame that feed a signal, in a table in order.
  pub rows_lem :
      (id : ℕ) (q : RuntimeSignal Float → Bool) (rows table : List (RuntimeSignal Float))
      → IsOrdered table
      → Reorders rows table
      → length (filter (λ r. is_of id r && q r) rows) ≤ 1
      → filter q (frame_rows id table) ≡ filter (λ r. is_of id r && q r) rows
  rows_lem id q rows table v o n =
      ap (filter q) (frame_rows-filter id table v)
      ∙ filter-filter q (is_of id) table
      ∙ filter-Reorders (λ r. is_of id r && q r) rows table o n

  -- A signal that one row without references brings in a frame, in a table that is loaded, in the order of the
  -- identifiers, and holds the rows in any order: its slot gets the value of that row when its bytes lie in the
  -- frame and the value is finite, and is left alone otherwise. The store is in order before and after.
  pub parse_frame_direct :
      (p : Parser Float Token) (rows : List (RuntimeSignal Float)) (id : ℕ) (bytes : List ℕ) (i : ℕ)
      (r : RuntimeSignal Float) (sig : SignalValue Float) (s : Store Float)
      → p.runtime_loaded ≡ true
      → IsOrdered p.runtime
      → Reorders rows p.runtime
      → filter (λ r. is_of id r && feeds i r) rows ≡ r ∷ []
      → is_direct r ≡ true
      → Holds i sig s
      → Holds i (direct_slot p bytes i r sig) (parse_frame env id bytes p s)
  unfolding parse_frame
  parse_frame_direct p rows id bytes i r sig s loaded v o e d h =
      let taken = rows_lem id (feeds i) rows p.runtime v o (omega (arith, ap length e)) ∙ e in
      let none_cross : (if is_direct r then [] else r ∷ []) ≡ [] = ground arith in
      rw (loaded, parse_frame)
        (cross_other p bytes i (frame_rows id p.runtime) _ _ (cross_rows i _ r taken ∙ none_cross)
          (direct_single p bytes i (frame_rows id p.runtime) r sig s taken h))
