-- ===== src/Scan/Busiest.antt =====
-- The speed that rust/bus-scan/src/picker.rs picks.
use canshift_firmware.Prelude.{
  ℕ, ◌+◌, ◌≤◌, ◌<◌, ◌≡◌, ◌⊎◌, inl, inr, refl, ap, ◌∙◌, Bool, true, false, Option, none, some, List,
  ◌++◌, length, [], ◌∷◌, ◌&&◌, ltb, if◌then◌else◌, arith, Bool-cases,
}
use canshift_firmware.Scan.Machine.{
  Probe, clean, best, quiet, all_quiet, Pick, detected, silent, unclear, pick,
}

-- The frames that a clean probe needs to beat what was found before.
abbrev needed : Option (ℕ × ℕ) → ℕ
needed none = 0
needed (some b) = b.1 + 1

abbrev takes : Option (ℕ × ℕ) → Probe → Bool
takes none p = clean p
takes (some b) p = clean p && ltb b.1 p.frames

if_arg :
    {A B : Type 0} (t : Bool) (f : A → B) (x y : A)
    → (if t then f x else f y) ≡ f (if t then x else y)
if_arg true f x y = refl
if_arg false f x y = refl

best_step :
    (p : Probe) (ps : List Probe) (i : ℕ) (b : Option (ℕ × ℕ))
    → best (p ∷ ps) i b ≡ best ps (i + 1) (if takes b p then some (i, p.frames) else b)
unfolding best
best_step p ps i none = if_arg (clean p) (best ps (i + 1)) (some (i, p.frames)) none
best_step p ps i (some b) =
    if_arg (takes (some b) p) (best ps (i + 1)) (some (i, p.frames)) (some b)

takes_lem :
    (b : Option (ℕ × ℕ)) (p : Probe) → takes b p ≡ true → (clean p ≡ true) × (needed b ≤ p.frames)
takes_lem none p e = (e, omega arith)
takes_lem (some b) p e = ground arith

leaves_lem :
    (b : Option (ℕ × ℕ)) (p : Probe) → takes b p ≡ false → clean p ≡ true → p.frames < needed b
leaves_lem none p e c = absurd (ground arith)
leaves_lem (some b) p e c = ground arith

-- All clean probes of the list have fewer frames than this.
abbrev pub AllBelow : ℕ → List Probe → Type 0
AllBelow top [] = Unit
AllBelow top (p ∷ ps) = (clean p ≡ true → p.frames < top) × AllBelow top ps

abbrev pub AllQuiet : List Probe → Type 0
AllQuiet [] = Unit
AllQuiet (p ∷ ps) = (p.frames ≡ 0) × (p.bus_errors ≡ 0) × AllQuiet ps

-- The place of a clean probe, which is the first of those with the most frames.
pub record IsBusiest (ps : List Probe) (place frames : ℕ) : Type 0 where
  pub before : List Probe
  pub probe : Probe
  pub after : List Probe
  pub split : ps ≡ before ++ (probe ∷ after)
  pub at_place : length before ≡ place
  pub is_clean : clean probe ≡ true
  pub all_frames : probe.frames ≡ frames
  pub earlier : AllBelow frames before
  pub later : AllBelow (frames + 1) after

abbrev Found : List Probe → ℕ → Option (ℕ × ℕ) → Type 0
Found ps i b =
    (k : ℕ) × (f : ℕ) × (best ps i b ≡ some (i + k, f)) × (needed b ≤ f) × IsBusiest ps k f

head_IsBusiest :
    (p : Probe) (ps : List Probe)
    → clean p ≡ true
    → AllBelow (p.frames + 1) ps
    → IsBusiest (p ∷ ps) 0 p.frames
head_IsBusiest p ps c v = record {
  before = [];
  probe = p;
  after = ps;
  split = refl;
  at_place = refl;
  is_clean = c;
  all_frames = refl;
  earlier = tt;
  later = v;
}

tail_IsBusiest :
    (p : Probe) (ps : List Probe) (k f : ℕ)
    → (clean p ≡ true → p.frames < f)
    → IsBusiest ps k f
    → IsBusiest (p ∷ ps) (k + 1) f
tail_IsBusiest p ps k f h v = record {
  before = p ∷ v.before;
  probe = v.probe;
  after = v.after;
  split = ap (λ l. p ∷ l) v.split;
  at_place = omega arith;
  is_clean = v.is_clean;
  all_frames = v.all_frames;
  earlier = (h, v.earlier);
  later = v.later;
}

best_lem :
    (ps : List Probe) (i : ℕ) (b : Option (ℕ × ℕ))
    → ((best ps i b ≡ b) × AllBelow (needed b) ps) ⊎ Found ps i b
unfolding best
best_lem [] i b = inl (refl, tt)
best_lem (p ∷ ps) i b = elim (Bool-cases (takes b p)) [
  | inl e ↦
      let next =
        best_step p ps i b ∙ ap (λ t. best ps (i + 1) (if t then some (i, p.frames) else b)) e in
      let (c, n) = takes_lem b p e in
      elim (best_lem ps (i + 1) (some (i, p.frames))) [
        | inl (eq, v) ↦ inr (
          0,
          p.frames,
          next ∙ eq ∙ ap (λ n. some (n, p.frames)) (omega arith),
          n,
          head_IsBusiest p ps c v,
        )
        | inr (k, f, eq, n', v) ↦ inr (
          k + 1,
          f,
          next ∙ eq ∙ ap (λ n. some (n, f)) (omega arith),
          omega arith,
          tail_IsBusiest p ps k f (λ c. omega arith) v,
        )
      ]
  | inr e ↦
      let next =
        best_step p ps i b ∙ ap (λ t. best ps (i + 1) (if t then some (i, p.frames) else b)) e in
      elim (best_lem ps (i + 1) b) [
        | inl (eq, v) ↦ inl (next ∙ eq, (leaves_lem b p e, v))
        | inr (k, f, eq, n', v) ↦ inr (
          k + 1,
          f,
          next ∙ eq ∙ ap (λ n. some (n, f)) (omega arith),
          n',
          tail_IsBusiest p ps k f (λ c. let l = leaves_lem b p e c in omega arith) v,
        )
      ]
]

quiet_lem :
    (p : Probe)
    → (quiet p ≡ true → (p.frames ≡ 0) × (p.bus_errors ≡ 0))
      × (p.frames ≡ 0 → p.bus_errors ≡ 0 → quiet p ≡ true)
unfolding quiet
quiet_lem p = (λ e. ground arith, λ x y. ground arith)

both : (a b : Bool) → a && b ≡ true → (a ≡ true) × (b ≡ true)
both a b e = ground arith

all_quiet_lem :
    (ps : List Probe) → (all_quiet ps ≡ true → AllQuiet ps) × (AllQuiet ps → all_quiet ps ≡ true)
unfolding all_quiet quiet
all_quiet_lem [] = (λ e. tt, λ v. refl)
all_quiet_lem (p ∷ ps) =
    let (f, g) = all_quiet_lem ps in
    (
      λ e.
          let (a, b) = both (quiet p) (all_quiet ps) e in
          let (x, y) = (quiet_lem p).0 a in (x, y, f b),
      λ v. let (x, y, w) = v in let a = (quiet_lem p).1 x y in let b = g w in ground arith,
    )

abbrev pub IsPick : List Probe → Pick → Type 0
IsPick ps (detected place) = (frames : ℕ) × IsBusiest ps place frames
IsPick ps silent = AllQuiet ps
IsPick ps unclear = AllBelow 0 ps × ¬ AllQuiet ps

-- `pick` gives the place of the clean probe with the most frames, the first of several; when no probe is
-- clean it answers silent exactly when no probe had a frame or an error, and unclear otherwise.
pub pick-IsPick : (ps : List Probe) → IsPick ps (pick ps)
unfolding pick
pick-IsPick ps = elim (best_lem ps 0 none) [
  | inr (k, f, e, n, v) ↦
      let place : 0 + k ≡ k = omega arith in rw (e ∙ ap (λ j. some (j, f)) place, pick) (f, v)
  | inl (e, v) ↦ elim (Bool-cases (all_quiet ps)) [
    | inl q ↦ rw (e, q, pick) ((all_quiet_lem ps).0 q)
    | inr q ↦ rw (e, q, pick) (v, λ h. absurd (let a = (all_quiet_lem ps).1 h in ground arith))
  ]
]
