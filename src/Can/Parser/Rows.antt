-- ===== src/Can/Parser/Rows.antt =====
-- Which rows of its table src/can/can_parser.cpp takes for a frame, whatever order `std::sort` gives them.
use canshift_firmware.Prelude.{
  ℕ, zero, suc, ◌≤◌, ◌<◌, ◌≡◌, refl, sym, ap, ◌∙◌, Bool, false, ◌&&◌, List, [], ◌∷◌, ◌++◌,
  if◌then◌else◌, ltb, ◌==◌, length, arith, All, Bool-cases, inl, inr,
}
use canshift_firmware.Can.Parser.{RuntimeSignal, from_id, run_of_id, frame_rows}

-- A list with the elements at `n` and `n + 1` exchanged.
unfoldable pub swap_at : {A : Type 0} → ℕ → List A → List A
swap_at zero (x ∷ y ∷ xs) = y ∷ x ∷ xs
swap_at (suc n) (x ∷ xs) = x ∷ swap_at n xs
swap_at _ xs = xs

unfoldable pub swap_all : {A : Type 0} → List ℕ → List A → List A
swap_all [] xs = xs
swap_all (n ∷ ns) xs = swap_all ns (swap_at n xs)

-- Another order of the same elements.
abbrev pub Reorders : {A : Type 0} → List A → List A → Type 0
Reorders xs ys = (ns : List ℕ) × (swap_all ns xs ≡ ys)

pub All-append :
    {A : Type 0} (P : A → Type 0) (xs ys : List A) → All P xs → All P ys → All P (xs ++ ys)
All-append P [] ys v w = w
All-append P (x ∷ xs) ys (p, v) w = (p, All-append P xs ys v w)

All-swap_at : {A : Type 0} (P : A → Type 0) (n : ℕ) (xs : List A) → All P xs → All P (swap_at n xs)
unfolding swap_at
All-swap_at P zero [] v = v
All-swap_at P zero (x ∷ []) v = v
All-swap_at P zero (x ∷ y ∷ xs) (p, (q, v)) = (q, (p, v))
All-swap_at P (suc n) [] v = v
All-swap_at P (suc n) (x ∷ xs) (p, v) = (p, All-swap_at P n xs v)

pub All-swap_all :
    {A : Type 0} (P : A → Type 0) (ns : List ℕ) (xs : List A) → All P xs → All P (swap_all ns xs)
unfolding swap_all
All-swap_all P [] xs v = v
All-swap_all P (n ∷ ns) xs v = All-swap_all P ns (swap_at n xs) (All-swap_at P n xs v)

module _ {A : Type 0} where
  length-swap_at : (n : ℕ) (xs : List A) → length (swap_at n xs) ≡ length xs
  unfolding swap_at
  length-swap_at zero [] = refl
  length-swap_at zero (x ∷ []) = refl
  length-swap_at zero (x ∷ y ∷ xs) = refl
  length-swap_at (suc n) [] = refl
  length-swap_at (suc n) (x ∷ xs) = ap suc (length-swap_at n xs)

  pub length-swap_all : (ns : List ℕ) (xs : List A) → length (swap_all ns xs) ≡ length xs
  unfolding swap_all
  length-swap_all [] xs = refl
  length-swap_all (n ∷ ns) xs = length-swap_all ns (swap_at n xs) ∙ length-swap_at n xs

  abbrev pub filter : (A → Bool) → List A → List A
  filter p [] = []
  filter p (x ∷ xs) = if p x then x ∷ filter p xs else filter p xs

  filter-swap_at :
      (p : A → Bool) (n : ℕ) (xs : List A)
      → length (filter p xs) ≤ 1
      → filter p (swap_at n xs) ≡ filter p xs
  unfolding swap_at
  filter-swap_at p zero [] h = refl
  filter-swap_at p (suc n) [] h = refl
  filter-swap_at p zero (x ∷ []) h = refl
  filter-swap_at p zero (x ∷ y ∷ xs) h = ground arith
  filter-swap_at p (suc n) (x ∷ xs) h = ground (arith, filter-swap_at p n xs)

  filter-swap_all :
      (p : A → Bool) (ns : List ℕ) (xs : List A)
      → length (filter p xs) ≤ 1
      → filter p (swap_all ns xs) ≡ filter p xs
  unfolding swap_all
  filter-swap_all p [] xs h = refl
  filter-swap_all p (n ∷ ns) xs h =
      let e = filter-swap_at p n xs h in
      filter-swap_all p ns (swap_at n xs) (omega (arith, ap length e)) ∙ e

  pub filter-Reorders :
      (p : A → Bool) (xs ys : List A)
      → Reorders xs ys
      → length (filter p xs) ≤ 1
      → filter p ys ≡ filter p xs
  filter-Reorders p xs ys (ns, e) h = ap (filter p) (sym e) ∙ filter-swap_all p ns xs h

  pub filter-filter :
      (p q : A → Bool) (xs : List A) → filter p (filter q xs) ≡ filter (λ x. q x && p x) xs
  filter-filter p q [] = refl
  filter-filter p q (x ∷ xs) = ground (arith, filter-filter p q xs)

module _ {Float : Type 0} where
  -- Rows in the order of their identifiers.
  abbrev pub IsOrdered : List (RuntimeSignal Float) → Type 0
  IsOrdered [] = Unit
  IsOrdered (r ∷ rs) = All (λ q. r.can_frame_id ≤ q.can_frame_id) rs × IsOrdered rs

  abbrev pub is_of : ℕ → RuntimeSignal Float → Bool
  is_of id r = r.can_frame_id == id

  none_of :
      (id : ℕ) (rs : List (RuntimeSignal Float)) (k : ℕ)
      → id < k
      → All (λ q. k ≤ q.can_frame_id) rs
      → filter (is_of id) rs ≡ []
  none_of id [] k h v = refl
  none_of id (r ∷ rs) k h (v, vs) = ground (arith, none_of id rs k h vs)

  run_lem :
      (id : ℕ) (rs : List (RuntimeSignal Float))
      → IsOrdered rs
      → All (λ q. id ≤ q.can_frame_id) rs
      → run_of_id id rs ≡ filter (is_of id) rs
  unfolding run_of_id
  run_lem id [] v w = refl
  run_lem id (r ∷ rs) (v, vs) (w, ws) = elim (Bool-cases (is_of id r)) [
    | inl e ↦ rw (e, run_of_id) (ap (λ t. r ∷ t) (run_lem id rs vs ws))
    | inr e ↦ rw (e, run_of_id) (sym (none_of id rs r.can_frame_id (ground arith) v))
  ]

  weaken :
      (k n : ℕ) (rs : List (RuntimeSignal Float))
      → k ≤ n
      → All (λ q. n ≤ q.can_frame_id) rs
      → All (λ q. k ≤ q.can_frame_id) rs
  weaken k n [] h v = tt
  weaken k n (r ∷ rs) h (v, vs) = (omega arith, weaken k n rs h vs)

  -- In a table in order, the rows of a frame are all rows with its identifier.
  pub frame_rows-filter :
      (id : ℕ) (rs : List (RuntimeSignal Float))
      → IsOrdered rs
      → frame_rows id rs ≡ filter (is_of id) rs
  unfolding frame_rows from_id
  frame_rows-filter id [] v = run_lem id [] v tt
  frame_rows-filter id (r ∷ rs) (v, vs) = elim (Bool-cases (ltb r.can_frame_id id)) [
    | inl e ↦
        let skipped : is_of id r ≡ false = ground arith in
        rw (e, from_id, skipped) (frame_rows-filter id rs vs)
    | inr e ↦
        let up : id ≤ r.can_frame_id = ground arith in
        rw (e, from_id) (run_lem id (r ∷ rs) (v, vs) (up, weaken id r.can_frame_id rs up v))
  ]
