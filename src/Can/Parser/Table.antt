-- ===== src/Can/Parser/Table.antt =====
-- The table that src/can/can_parser.cpp fills from the configuration.
use canshift_firmware.Prelude.{
  ℕ, suc, ◌+◌, ◌≤◌, ◌<◌, ◌≡◌, refl, sym, ap, ◌∙◌, subst, true, false, not, ◌||◌, Option, none, some,
  List, [], ◌∷◌, ◌++◌, ltb, leb, ◌==◌, length, get_elem?, length-append, All, arith, Option-cases,
  inl, inr, if_lem,
}
use canshift_firmware.Signals.{Store, set_timeout}
use canshift_firmware.Obd2.Poller.{signal_count}
use canshift_firmware.Can.Parser.{
  Env, RuntimeSignal, SignalDef, SignalConfig, Parser, blank, config_max_signals, expr_pool_tokens,
  add_broadcast_decode, bind_target, add_runtime_signal, add_runtime_signals,
  load_signal_definitions,
}
use canshift_firmware.Can.Parser.Rows.{
  Reorders, IsOrdered, All-append, All-swap_all, length-swap_all,
}
use canshift_firmware.Can.Parser.Pool.{IsRow, IsRow-append, Extends, compile_lem}

-- `std::sort` puts the rows in the order of their identifiers, those of one identifier in any order.
abbrev pub Sorts :
    {Float : Type 0} → (List (RuntimeSignal Float) → List (RuntimeSignal Float)) → Type 0
Sorts sort = (rows : List (RuntimeSignal _)) → IsOrdered (sort rows) × Reorders rows (sort rows)

module _ {Name Float Token : Type 0} (env : Env Float Token) (signal_id_from_name : Name → ℕ)
    (sort : List (RuntimeSignal Float) → List (RuntimeSignal Float))
    (compile_fits : (text : List ℕ) (room : ℕ) (tokens : List Token)
      → env.compile_expr text room ≡ some tokens
      → (length tokens ≤ room) × (length tokens ≤ 64)) where
  -- The table with what it was filled from: `Known` holds of the definitions.
  pub record IsTable (Known : SignalDef Name Float → Type 0) (p : Parser Float Token) : Type 0 where
    pub rows_size : length p.runtime ≤ config_max_signals
    pub targets_size : length p.targets ≤ config_max_signals
    pub pool_size : length p.expr_pool ≤ expr_pool_tokens
    pub rows :
        All
          (λ r.
            (def : SignalDef Name Float) × Known def
            × IsRow env signal_id_from_name def p.expr_pool r)
          p.runtime

  blank-IsTable : (Known : SignalDef Name Float → Type 0) → IsTable Known blank
  blank-IsTable Known = record {
    rows_size = omega arith;
    targets_size = omega arith;
    pool_size = omega arith;
    rows = tt;
  }

  rows-append :
      (Known : SignalDef Name Float → Type 0) (pool more : List Token)
      (rs : List (RuntimeSignal Float))
      → All
          (λ r. (def : SignalDef Name Float) × Known def × IsRow env signal_id_from_name def pool r)
          rs
      → All
          (λ r.
            (def : SignalDef Name Float) × Known def
            × IsRow env signal_id_from_name def (pool ++ more) r)
          rs
  rows-append Known pool more [] v = tt
  rows-append Known pool more (r ∷ rs) ((def, k, q), v) = (
    (def, k, IsRow-append env signal_id_from_name def pool more r q),
    rows-append Known pool more rs v,
  )

  abbrev Kept : (SignalDef Name Float → Type 0) → Option (Parser Float Token) → Type 0
  Kept Known none = Unit
  Kept Known (some p) = IsTable Known p

  row_lem :
      (Known : SignalDef Name Float → Type 0) (def : SignalDef Name Float) (p : Parser Float Token)
      (o : Option (RuntimeSignal Float × List Token))
      → IsTable Known p
      → Known def
      → length p.runtime < config_max_signals
      → Extends env signal_id_from_name sort compile_fits def p.expr_pool o
      → Kept Known (elim o [
        | none ↦ none
        | some (r, pool) ↦ some (record p { runtime = p.runtime ++ (r ∷ []); expr_pool = pool })
      ])
  row_lem Known def p none v k lt x = tt
  row_lem Known def p (some (r, pool)) v k lt (q, more, e, size) = record {
    rows_size = omega (arith, length-append p.runtime (r ∷ []));
    targets_size = v.targets_size;
    pool_size = size;
    rows =
        All-append _ p.runtime (r ∷ [])
          (subst
            (λ t.
              All
                (λ r.
                  (def : SignalDef Name Float) × Known def × IsRow env signal_id_from_name def t r)
                p.runtime)
            (sym e) (rows-append Known p.expr_pool more p.runtime v.rows))
          ((def, k, q), tt);
  }

  bind_lem :
      (Known : SignalDef Name Float → Type 0) (def : SignalDef Name Float) (sid : ℕ)
      (p : Parser Float Token)
      → IsTable Known p
      → IsTable Known (bind_target env signal_id_from_name sort def sid p)
  unfolding bind_target
  bind_lem Known def sid p v = elim (Option-cases def.target_id) [
    | inl e ↦ rw (e, bind_target) v
    | inr (target, e) ↦
        rw (e, bind_target)
          (if_lem (IsTable Known) (leb config_max_signals (length p.targets)) p _ (λ f. v)
            (λ f. record {
              rows_size = v.rows_size;
              targets_size = ground (arith, length-append p.targets ((target, sid) ∷ []));
              pool_size = v.pool_size;
              rows = v.rows;
            }))
  ]

  abbrev bound :
      SignalDef Name Float
      → ℕ
      → Parser Float Token
      → Store Float
      → Option (Parser Float Token)
      → Parser Float Token × Store Float
  bound def sid p s none = (p, s)
  bound def sid p s (some p') =
      (bind_target env signal_id_from_name sort def sid p', set_timeout sid def.timeout_ms s)

  bound_lem :
      (Known : SignalDef Name Float → Type 0) (def : SignalDef Name Float) (sid : ℕ)
      (p : Parser Float Token) (s : Store Float) (added : Option (Parser Float Token))
      → IsTable Known p
      → Kept Known added
      → IsTable Known (bound def sid p s added).0
  bound_lem Known def sid p s none v w = v
  bound_lem Known def sid p s (some p') v w = bind_lem Known def sid p' w

  add_lem :
      (Known : SignalDef Name Float → Type 0) (def : SignalDef Name Float) (p : Parser Float Token)
      (s : Store Float)
      → IsTable Known p
      → Known def
      → length p.runtime < config_max_signals
      → IsTable Known (add_runtime_signal env signal_id_from_name sort def (p, s)).0
  unfolding add_runtime_signal add_broadcast_decode
  add_lem Known def p s v k lt =
      let sid : ℕ = signal_id_from_name def.name in
      if_lem {A = Parser Float Token × Store Float} (λ out. IsTable Known out.0)
        (sid == signal_count) (p, s) _ (λ e. v)
        (λ e. bound_lem Known def sid p s _ v (
          if_lem (Kept Known) (def.poll_interval_ms == 0) _ (some p)
            (λ f. row_lem Known def p _ v k lt (
              compile_lem env signal_id_from_name sort compile_fits def p.expr_pool v.pool_size
                (ground arith)))
            (λ f. v)))

  adds_lem :
      (Known : SignalDef Name Float → Type 0) (defs : List (SignalDef Name Float))
      (p : Parser Float Token) (s : Store Float)
      → IsTable Known p
      → All Known defs
      → IsTable Known (add_runtime_signals env signal_id_from_name sort defs (p, s)).0
  unfolding add_runtime_signals
  adds_lem Known [] p s v k = v
  adds_lem Known (def ∷ defs) p s v (k, ks) =
      let next : Parser Float Token × Store Float =
        add_runtime_signal env signal_id_from_name sort def (p, s) in
      if_lem {A = Parser Float Token × Store Float} (λ out. IsTable Known out.0)
        (ltb (length p.runtime) config_max_signals)
        (add_runtime_signals env signal_id_from_name sort defs next) (p, s)
        (λ e. adds_lem Known defs next.0 next.1 (add_lem Known def p s v k (ground arith)) ks)
        (λ e. v)

  -- The definition is one of these.
  abbrev pub IsAmong : List (SignalDef Name Float) → SignalDef Name Float → Type 0
  IsAmong defs def = (k : ℕ) × (get_elem? defs k ≡ some def)

  among_lem :
      (all more : List (SignalDef Name Float)) (n : ℕ)
      → ((k : ℕ) → get_elem? more k ≡ get_elem? all (n + k))
      → All (IsAmong all) more
  among_lem all [] n e = tt
  among_lem all (def ∷ more) n e = (
    (n + 0, sym (e 0)),
    among_lem all more (n + 1) (λ k. e (suc k) ∙ ap (get_elem? all) (omega arith)),
  )

  -- A configuration that is loaded and has definitions fills the table so: it has at most 48 rows, in the order of
  -- their identifiers, at most 48 targets and 512 tokens; each row stands for a definition that is not polled,
  -- and what it will evaluate is what its expression was compiled to, whatever was compiled after it. The
  -- compiler gives no more tokens than there is room for, and 64 at most.
  pub load-IsTable :
      (cfg : SignalConfig Name Float) (p : Parser Float Token) (s : Store Float)
      → Sorts sort
      → cfg.loaded ≡ true
      → 0 < length cfg.signals
      → let out = load_signal_definitions env signal_id_from_name sort cfg (p, s) in
        IsTable (IsAmong cfg.signals) out.0
        × IsOrdered out.0.runtime
        × (out.0.runtime_loaded ≡ true)
  unfolding load_signal_definitions
  load-IsTable cfg p s sorts loaded some_defs =
      let filled : Parser Float Token × Store Float =
        add_runtime_signals env signal_id_from_name sort cfg.signals (blank, s) in
      let known =
        among_lem cfg.signals cfg.signals 0 (λ k. ap (get_elem? cfg.signals) (omega arith)) in
      let v =
        adds_lem (IsAmong cfg.signals) cfg.signals blank s (blank-IsTable (IsAmong cfg.signals))
          known in
      let (ordered, (ns, e)) = sorts filled.0.runtime in
      let go : (not cfg.loaded || (length cfg.signals == 0)) ≡ false = ground arith in
      rw (go, load_signal_definitions)
        (
          record {
            rows_size =
                omega (arith, v.rows_size, length-swap_all ns filled.0.runtime, ap length e);
            targets_size = v.targets_size;
            pool_size = v.pool_size;
            rows = subst (All _) e (All-swap_all _ ns filled.0.runtime v.rows);
          },
          ordered,
          refl,
        )
