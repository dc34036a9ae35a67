-- ===== src/Can/Parser/Cross.antt =====
-- Signals that src/can/can_parser.cpp computes from others: what a frame leaves in their slots.
use canshift_firmware.Prelude.{
  ℕ, ◌<◌, ◌≡◌, refl, sym, ap, ◌∙◌, subst, Bool, true, false, not, ◌&&◌, Option, none, some, List,
  [], ◌∷◌, if◌then◌else◌, leb, length, get_elem?, get_elem?_in_range, All, arith, Bool-cases,
  Option-cases, inl, inr,
}
use canshift_firmware.Signals.{Store, SignalValue, max_signals, is_valid, read}
use canshift_firmware.Signals.Freshness.{IsStore}
use canshift_firmware.Can.Parser.{
  Env, RuntimeSignal, Parser, frame_rows, signal_for_target, fits, is_direct, resolve_refs,
  tokens_of, eval_cross_signal, decode_direct, decode_cross, parse_frame,
}
use canshift_firmware.Can.Parser.Rows.{Reorders, filter, IsOrdered, is_of}
use canshift_firmware.Can.Parser.Direct.{
  feeds, stored, Holds, is_cross_of, direct_slot, direct_single, cross_rows, store_lem, step_other,
  cross_other, rows_lem,
}

module _ {Float Token : Type 0} (env : Env Float Token) where
  abbrev Agree : ℕ → Store Float → Store Float → Type 0
  Agree j s s' = j < max_signals → get_elem? s.signals j ≡ get_elem? s'.signals j

  is_valid_same :
      (j : ℕ) (s s' : Store Float)
      → get_elem? s.signals j ≡ get_elem? s'.signals j
      → is_valid j s ≡ is_valid j s'
  unfolding is_valid
  is_valid_same j s s' e = rw e refl

  read_same :
      (j : ℕ) (s s' : Store Float)
      → get_elem? s.signals j ≡ get_elem? s'.signals j
      → read j env.zero_value s ≡ read j env.zero_value s'
  unfolding read
  read_same j s s' e = rw e refl

  abbrev one_more : ℕ → Bool → Float → Option (List (ℕ × Float)) → Option (List (ℕ × Float))
  one_more t valid value rest =
      if not valid
      then none
      else elim rest [ none ↦ none | some values ↦ some ((t, value) ∷ values) ]

  resolve_same :
      (refs : List ℕ) (targets : List (ℕ × ℕ)) (s s' : Store Float)
      → All (λ t. Agree (signal_for_target t targets) s s') refs
      → resolve_refs env refs targets s ≡ resolve_refs env refs targets s'
  unfolding resolve_refs
  resolve_same [] targets s s' v = refl
  resolve_same (t ∷ refs) targets s s' (a, v) =
      let sid : ℕ = signal_for_target t targets in
      elim (Bool-cases (leb max_signals sid)) [
        | inl e ↦ rw (e, resolve_refs) refl
        | inr e ↦
            let same = a (ground arith) in
            let rest = resolve_refs env refs targets s in
            rw (e, resolve_refs)
              (ap (λ b. one_more t b (read sid env.zero_value s) rest) (is_valid_same sid s s' same)
                ∙ ap (λ x. one_more t (is_valid sid s') x rest) (read_same sid s s' same)
                ∙ ap (one_more t (is_valid sid s') (read sid env.zero_value s'))
                    (resolve_same refs targets s s' v))
      ]

  -- What a row with references does to slot `i`, by what they resolve to.
  abbrev pub cross_slot :
      Parser Float Token
      → List ℕ
      → ℕ
      → RuntimeSignal Float
      → Option (List (ℕ × Float))
      → SignalValue Float
      → SignalValue Float
  cross_slot p bytes i r none sig = sig
  cross_slot p bytes i r (some refs) sig =
      stored env i r (env.eval_tokens_refs bytes r.layout (tokens_of r p.expr_pool) refs) sig

  eval_lem :
      (p : Parser Float Token) (bytes : List ℕ) (r : RuntimeSignal Float) (i : ℕ)
      (sig : SignalValue Float) (s : Store Float)
      → Holds env i sig s
      → Holds env i
          (cross_slot p bytes i r (resolve_refs env r.ref_target_ids p.targets s) sig)
          (eval_cross_signal env p bytes r s)
  unfolding eval_cross_signal
  eval_lem p bytes r i sig s h =
      elim (Option-cases (resolve_refs env r.ref_target_ids p.targets s)) [
        | inl e ↦ rw (e, eval_cross_signal) h
        | inr (refs, e) ↦
            rw (e, eval_cross_signal)
              (store_lem env r (env.eval_tokens_refs bytes r.layout (tokens_of r p.expr_pool) refs)
                i sig s h)
      ]

  cross-Agree :
      (p : Parser Float Token) (bytes : List ℕ) (j : ℕ) (rs : List (RuntimeSignal Float))
      (s : Store Float)
      → IsStore s
      → filter (is_cross_of env j) rs ≡ []
      → Agree j s (decode_cross env p bytes rs s)
  cross-Agree p bytes j rs s v e lt =
      let (sig, here) = get_elem?_in_range s.signals j (omega (arith, v.size)) in
      here ∙ sym (cross_other env p bytes j rs sig s e (here, v)).0

  -- No row with references feeds a signal that these targets stand for.
  abbrev pub AreSettled : List ℕ → List (ℕ × ℕ) → List (RuntimeSignal Float) → Type 0
  AreSettled refs targets rs =
      All (λ t. filter (is_cross_of env (signal_for_target t targets)) rs ≡ []) refs

  settled_tail :
      (refs : List ℕ) (targets : List (ℕ × ℕ)) (r : RuntimeSignal Float)
      (rs : List (RuntimeSignal Float))
      → AreSettled refs targets (r ∷ rs)
      → AreSettled refs targets rs
  settled_tail [] targets r rs v = tt
  settled_tail (t ∷ refs) targets r rs (e, v) = (ground arith, settled_tail refs targets r rs v)

  settled_same :
      (p : Parser Float Token) (bytes : List ℕ) (refs : List ℕ) (rs : List (RuntimeSignal Float))
      (s : Store Float)
      → IsStore s
      → AreSettled refs p.targets rs
      → All (λ t. Agree (signal_for_target t p.targets) s (decode_cross env p bytes rs s)) refs
  settled_same p bytes [] rs s v w = tt
  settled_same p bytes (t ∷ refs) rs s v (e, w) = (
    cross-Agree p bytes (signal_for_target t p.targets) rs s v e,
    settled_same p bytes refs rs s v w,
  )

  -- What the row of a signal does to its slot, by what its references resolve to in `s`.
  abbrev pub consistent_slot :
      Parser Float Token
      → List ℕ
      → ℕ
      → RuntimeSignal Float
      → Store Float
      → SignalValue Float
      → SignalValue Float
  consistent_slot p bytes i c s sig =
      if not (is_direct c) && fits c bytes
      then cross_slot p bytes i c (resolve_refs env c.ref_target_ids p.targets s) sig
      else sig

  step_lem :
      (p : Parser Float Token) (bytes : List ℕ) (c : RuntimeSignal Float) (i : ℕ)
      (sig : SignalValue Float) (s : Store Float)
      → Holds env i sig s
      → Holds env i
          (consistent_slot p bytes i c s sig)
          (if not (is_direct c) && fits c bytes then eval_cross_signal env p bytes c s else s)
  step_lem p bytes c i sig s h = elim (Bool-cases (not (is_direct c) && fits c bytes)) [
    | inl e ↦ rw e (eval_lem p bytes c i sig s h)
    | inr e ↦ rw e h
  ]

  first_lem :
      (p : Parser Float Token) (bytes : List ℕ) (i : ℕ) (rs : List (RuntimeSignal Float))
      (r c : RuntimeSignal Float) (sig : SignalValue Float) (s : Store Float)
      → r ≡ c
      → filter (is_cross_of env i) rs ≡ []
      → AreSettled c.ref_target_ids p.targets (r ∷ rs)
      → Holds env i sig s
      → Holds env i
          (consistent_slot p bytes i c (decode_cross env p bytes (r ∷ rs) s) sig)
          (decode_cross env p bytes (r ∷ rs) s)
  unfolding decode_cross
  first_lem p bytes i rs r c sig s same e w h =
      let refs = c.ref_target_ids in
      let end : Store Float = decode_cross env p bytes (r ∷ rs) s in
      let settled = settled_same p bytes refs (r ∷ rs) s h.1 w in
      let resolved = resolve_same refs p.targets s end settled in
      subst (λ sig'. Holds env i sig' end)
        (ap (λ q. consistent_slot p bytes i q s sig) same
          ∙ ap
              (λ o. if not (is_direct c) && fits c bytes then cross_slot p bytes i c o sig else sig)
              resolved)
        (cross_other env p bytes i rs (consistent_slot p bytes i r s sig)
          (if not (is_direct r) && fits r bytes then eval_cross_signal env p bytes r s else s) e
          (step_lem p bytes r i sig s h))

  cross_single :
      (p : Parser Float Token) (bytes : List ℕ) (i : ℕ) (rs : List (RuntimeSignal Float))
      (c : RuntimeSignal Float) (sig : SignalValue Float) (s : Store Float)
      → filter (is_cross_of env i) rs ≡ c ∷ []
      → AreSettled c.ref_target_ids p.targets rs
      → Holds env i sig s
      → Holds env i
          (consistent_slot p bytes i c (decode_cross env p bytes rs s) sig)
          (decode_cross env p bytes rs s)
  unfolding decode_cross
  cross_single p bytes i [] c sig s e w h = absurd (ground arith)
  cross_single p bytes i (r ∷ rs) c sig s e w h = elim (Bool-cases (is_cross_of env i r)) [
    | inl f ↦
        let same : r ≡ c = ground arith in
        let none_later : filter (is_cross_of env i) rs ≡ [] = ground arith in
        first_lem p bytes i rs r c sig s same none_later w h
    | inr f ↦
        let later : filter (is_cross_of env i) rs ≡ c ∷ [] = ground arith in
        cross_single p bytes i rs c sig
          (if not (is_direct r) && fits r bytes then eval_cross_signal env p bytes r s else s) later
          (settled_tail c.ref_target_ids p.targets r rs w) (step_other env p bytes r i sig s f h)
  ]

  settled_frame :
      (id : ℕ) (refs : List ℕ) (targets : List (ℕ × ℕ)) (rows table : List (RuntimeSignal Float))
      → IsOrdered table
      → Reorders rows table
      → All
          (λ t.
            filter (λ r. is_of id r && is_cross_of env (signal_for_target t targets) r) rows ≡ [])
          refs
      → AreSettled refs targets (frame_rows id table)
  settled_frame id [] targets rows table v o w = tt
  settled_frame id (t ∷ refs) targets rows table v o (e, w) = (
    rows_lem env id (is_cross_of env (signal_for_target t targets)) rows table v o
          (omega (arith, ap length e))
        ∙ e,
    settled_frame id refs targets rows table v o w,
  )

  -- A signal that one row with references brings in a frame, where no such row of the frame feeds a signal that it
  -- refers to, in a table that is loaded and in the order of the identifiers: after the frame its slot holds what
  -- its expression gives on the values that the others have after the frame, when its bytes lie in the frame,
  -- those are all valid and the result is finite, and is left alone otherwise. The store is in order before and
  -- after.
  pub parse_frame_cross :
      (p : Parser Float Token) (rows : List (RuntimeSignal Float)) (id : ℕ) (bytes : List ℕ) (i : ℕ)
      (c : RuntimeSignal Float) (sig : SignalValue Float) (s : Store Float)
      → p.runtime_loaded ≡ true
      → IsOrdered p.runtime
      → Reorders rows p.runtime
      → filter (λ r. is_of id r && feeds env i r) rows ≡ c ∷ []
      → is_direct c ≡ false
      → All
          (λ t.
            filter (λ r. is_of id r && is_cross_of env (signal_for_target t p.targets) r) rows ≡ [])
          c.ref_target_ids
      → Holds env i sig s
      → Holds env i
          (consistent_slot p bytes i c (parse_frame env id bytes p s) sig)
          (parse_frame env id bytes p s)
  unfolding parse_frame
  parse_frame_cross p rows id bytes i c sig s loaded v o e d w h =
      let taken =
        rows_lem env id (feeds env i) rows p.runtime v o (omega (arith, ap length e)) ∙ e in
      let one : (if is_direct c then [] else c ∷ []) ≡ c ∷ [] = ground arith in
      let passed : direct_slot env p bytes i c sig ≡ sig = ground arith in
      let rs : List (RuntimeSignal Float) = frame_rows id p.runtime in
      let direct = direct_single env p bytes i rs c sig s taken h in
      rw (loaded, parse_frame)
        (cross_single p bytes i rs c sig (decode_direct env p bytes rs s)
          (cross_rows env i rs c taken ∙ one)
          (settled_frame id c.ref_target_ids p.targets rows p.runtime v o w)
          (subst (λ sig'. Holds env i sig' (decode_direct env p bytes rs s)) passed direct))
