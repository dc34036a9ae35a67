-- ===== src/Can/Parser/Pool.antt =====
-- The rows of src/can/can_parser.cpp and the tokens of their expressions in the pool.
use canshift_firmware.Prelude.{
  ℕ, zero, suc, ◌+◌, ◌-◌, ◌≤◌, ◌≡◌, refl, sym, ap, ◌∙◌, true, false, not, Option, none, some, List,
  [], ◌∷◌, ◌++◌, ◌==◌, length, take, drop, append-nil, length-append, u8, u16, arith, Bool-cases,
  Option-cases, inl, inr,
}
use canshift_firmware.Can.Parser.{
  Env, RuntimeSignal, SignalDef, expr_pool_tokens, tokens_of, fill_runtime_signal,
  compile_expression,
}

slice-append :
    {A : Type 0} (o n : ℕ) (xs ys : List A)
    → o + n ≤ length xs
    → take n (drop o (xs ++ ys)) ≡ take n (drop o xs)
slice-append zero zero xs ys h = refl
slice-append zero (suc n) [] ys h = absurd (omega arith)
slice-append zero (suc n) (x ∷ xs) ys h = ap (λ t. x ∷ t) (slice-append zero n xs ys (omega arith))
slice-append (suc o) n [] ys h = absurd (omega arith)
slice-append (suc o) n (x ∷ xs) ys h = slice-append o n xs ys (omega arith)

slice_end : {A : Type 0} (xs ys : List A) → take (length ys) (drop (length xs) (xs ++ ys)) ≡ ys
slice_end [] [] = refl
slice_end [] (y ∷ ys) = ap (λ t. y ∷ t) (slice_end [] ys)
slice_end (x ∷ xs) ys = slice_end xs ys

module _ {Name Float Token : Type 0} (env : Env Float Token) (signal_id_from_name : Name → ℕ) where
  -- A row that stands for a definition, with the tokens that its expression was compiled to.
  pub record IsRow (def : SignalDef Name Float) (pool : List Token) (r : RuntimeSignal Float)
      : Type 0 where
    pub broadcast : def.poll_interval_ms ≡ 0
    pub frame_id : r.can_frame_id ≡ def.can_frame_id
    pub layout : r.layout ≡ def.layout
    pub signal : r.signal_id ≡ signal_id_from_name def.name
    pub refs : r.ref_target_ids ≡ def.expr_refs
    pub has_expr : r.has_expr ≡ not (length def.expr == 0)
    pub inside : r.token_offset + r.token_count ≤ length pool
    pub tokens :
        r.has_expr ≡ true → (room : ℕ) × (env.compile_expr def.expr room ≡ some (tokens_of r pool))

  pub IsRow-append :
      (def : SignalDef Name Float) (pool more : List Token) (r : RuntimeSignal Float)
      → IsRow def pool r
      → IsRow def (pool ++ more) r
  unfolding tokens_of
  IsRow-append def pool more r v = record {
    broadcast = v.broadcast;
    frame_id = v.frame_id;
    layout = v.layout;
    signal = v.signal;
    refs = v.refs;
    has_expr = v.has_expr;
    inside = omega (arith, v.inside, length-append pool more);
    tokens = λ h.
        let (room, e) = v.tokens h in
        (room, e ∙ ap some (sym (slice-append r.token_offset r.token_count pool more v.inside)));
  }

module _ {Name Float Token : Type 0} (env : Env Float Token) (signal_id_from_name : Name → ℕ)
    (sort : List (RuntimeSignal Float) → List (RuntimeSignal Float))
    (compile_fits : (text : List ℕ) (room : ℕ) (tokens : List Token)
      → env.compile_expr text room ≡ some tokens
      → (length tokens ≤ room) × (length tokens ≤ 64)) where
  abbrev pub Extends :
      SignalDef Name Float → List Token → Option (RuntimeSignal Float × List Token) → Type 0
  Extends def pool none = Unit
  Extends def pool (some (r, pool')) =
      IsRow env signal_id_from_name def pool' r
      × (more : List Token) × (pool' ≡ pool ++ more)
      × (length pool' ≤ expr_pool_tokens)

  abbrev compiled : SignalDef Name Float → List Token → List Token → RuntimeSignal Float
  compiled def pool tokens =
      record (fill_runtime_signal env signal_id_from_name sort def (signal_id_from_name def.name)) {
        has_expr = true;
        token_offset = u16 (length pool);
        token_count = u8 (length tokens);
      }

  compiled_lem :
      (def : SignalDef Name Float) (pool tokens : List Token)
      → length pool ≤ expr_pool_tokens
      → def.poll_interval_ms ≡ 0
      → (length def.expr == 0) ≡ false
      → env.compile_expr def.expr (expr_pool_tokens - length pool) ≡ some tokens
      → IsRow env signal_id_from_name def (pool ++ tokens) (compiled def pool tokens)
  unfolding fill_runtime_signal tokens_of
  compiled_lem def pool tokens h q n e =
      let (room, short) = compile_fits def.expr (expr_pool_tokens - length pool) tokens e in
      let offset : u16 (length pool) ≡ length pool = omega arith in
      let count : u8 (length tokens) ≡ length tokens = omega arith in
      record {
        broadcast = q;
        frame_id = refl;
        layout = refl;
        signal = refl;
        refs = refl;
        has_expr = sym (ap not n);
        inside = omega (arith, length-append pool tokens);
        tokens = λ k. (
          expr_pool_tokens - length pool,
          e
              ∙ ap some (sym (slice_end pool tokens))
              ∙ ap (λ o. some (take (length tokens) (drop o (pool ++ tokens)))) (sym offset)
              ∙ ap (λ n. some (take n (drop (u16 (length pool)) (pool ++ tokens)))) (sym count),
        );
      }

  pub compile_lem :
      (def : SignalDef Name Float) (pool : List Token)
      → length pool ≤ expr_pool_tokens
      → def.poll_interval_ms ≡ 0
      → Extends def pool (
          compile_expression env signal_id_from_name sort def
            (fill_runtime_signal env signal_id_from_name sort def (signal_id_from_name def.name))
            pool)
  unfolding compile_expression fill_runtime_signal
  compile_lem def pool h q = elim (Bool-cases (length def.expr == 0)) [
    | inl e ↦
        rw (e, compile_expression)
          (
            record {
              broadcast = q;
              frame_id = refl;
              layout = refl;
              signal = refl;
              refs = refl;
              has_expr = sym (ap not e);
              inside = omega arith;
              tokens = λ k. absurd (ground arith);
            },
            [],
            sym (append-nil pool),
            h,
          )
    | inr e ↦ elim (Option-cases (env.compile_expr def.expr (expr_pool_tokens - length pool))) [
      | inl f ↦ rw (e, f, compile_expression) tt
      | inr (tokens, f) ↦
          let room = (compile_fits def.expr (expr_pool_tokens - length pool) tokens f).0 in
          rw (e, f, compile_expression)
            (
              compiled_lem def pool tokens h q e f,
              tokens,
              refl,
              omega (arith, length-append pool tokens, room),
            )
    ]
  ]
