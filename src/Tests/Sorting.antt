-- ===== src/Tests/Sorting.antt =====
-- A sort of the rows of src/can/can_parser.cpp, by insertion.
use canshift_firmware.Prelude.{
  ℕ, suc, ◌≤◌, ◌≡◌, refl, ap, ◌∙◌, List, [], ◌∷◌, ◌++◌, map, if◌then◌else◌, leb, All, arith,
  Bool-cases, inl, inr,
}
use canshift_firmware.Can.Parser.{RuntimeSignal}
use canshift_firmware.Can.Parser.Rows.{swap_at, swap_all, Reorders, IsOrdered}
use canshift_firmware.Can.Parser.Table.{Sorts}

swap_all-suc :
    {A : Type 0} (ns : List ℕ) (x : A) (xs : List A)
    → swap_all (map suc ns) (x ∷ xs) ≡ x ∷ swap_all ns xs
unfolding swap_all swap_at
swap_all-suc [] x xs = refl
swap_all-suc (n ∷ ns) x xs = swap_all-suc ns x (swap_at n xs)

swap_all-append :
    {A : Type 0} (ns ms : List ℕ) (xs : List A)
    → swap_all (ns ++ ms) xs ≡ swap_all ms (swap_all ns xs)
unfolding swap_all
swap_all-append [] ms xs = refl
swap_all-append (n ∷ ns) ms xs = swap_all-append ns ms (swap_at n xs)

cons-Reorders : {A : Type 0} (x : A) (xs ys : List A) → Reorders xs ys → Reorders (x ∷ xs) (x ∷ ys)
cons-Reorders x xs ys (ns, e) = (map suc ns, swap_all-suc ns x xs ∙ ap (λ t. x ∷ t) e)

trans-Reorders : {A : Type 0} (xs ys zs : List A) → Reorders xs ys → Reorders ys zs → Reorders xs zs
trans-Reorders xs ys zs (ns, e) (ms, f) =
    (ns ++ ms, swap_all-append ns ms xs ∙ ap (swap_all ms) e ∙ f)

module _ {Float : Type 0} where
  insert : RuntimeSignal Float → List (RuntimeSignal Float) → List (RuntimeSignal Float)
  insert r [] = r ∷ []
  insert r (q ∷ rs) = if leb r.can_frame_id q.can_frame_id then r ∷ q ∷ rs else q ∷ insert r rs

  unfoldable pub sort : List (RuntimeSignal Float) → List (RuntimeSignal Float)
  unfolding insert
  sort [] = []
  sort (r ∷ rs) = insert r (sort rs)

  insert-Reorders :
      (r : RuntimeSignal Float) (rs : List (RuntimeSignal Float)) → Reorders (r ∷ rs) (insert r rs)
  unfolding insert swap_all swap_at
  insert-Reorders r [] = ([], refl)
  insert-Reorders r (q ∷ rs) = elim (Bool-cases (leb r.can_frame_id q.can_frame_id)) [
    | inl e ↦ rw (e, insert) ([], refl)
    | inr e ↦
        rw (e, insert)
          (trans-Reorders (r ∷ q ∷ rs) (q ∷ r ∷ rs) (q ∷ insert r rs) (0 ∷ [], refl)
            (cons-Reorders q (r ∷ rs) (insert r rs) (insert-Reorders r rs)))
  ]

  insert_above :
      (k : ℕ) (r : RuntimeSignal Float) (rs : List (RuntimeSignal Float))
      → k ≤ r.can_frame_id
      → All (λ q. k ≤ q.can_frame_id) rs
      → All (λ q. k ≤ q.can_frame_id) (insert r rs)
  unfolding insert
  insert_above k r [] h v = (h, tt)
  insert_above k r (q ∷ rs) h (g, v) = elim (Bool-cases (leb r.can_frame_id q.can_frame_id)) [
    | inl e ↦ rw (e, insert) (h, (g, v))
    | inr e ↦ rw (e, insert) (g, insert_above k r rs h v)
  ]

  above_trans :
      (k n : ℕ) (rs : List (RuntimeSignal Float))
      → k ≤ n
      → All (λ q. n ≤ q.can_frame_id) rs
      → All (λ q. k ≤ q.can_frame_id) rs
  above_trans k n [] h v = tt
  above_trans k n (r ∷ rs) h (g, v) = (omega arith, above_trans k n rs h v)

  insert-IsOrdered :
      (r : RuntimeSignal Float) (rs : List (RuntimeSignal Float))
      → IsOrdered rs
      → IsOrdered (insert r rs)
  unfolding insert
  insert-IsOrdered r [] v = (tt, tt)
  insert-IsOrdered r (q ∷ rs) (v, vs) = elim (Bool-cases (leb r.can_frame_id q.can_frame_id)) [
    | inl e ↦
        let up : r.can_frame_id ≤ q.can_frame_id = ground arith in
        rw (e, insert) ((up, above_trans r.can_frame_id q.can_frame_id rs up v), (v, vs))
    | inr e ↦
        let up : q.can_frame_id ≤ r.can_frame_id = ground arith in
        rw (e, insert) (insert_above q.can_frame_id r rs up v, insert-IsOrdered r rs vs)
  ]

  pub sort-Sorts : Sorts {Float = Float} sort
  unfolding sort swap_all
  sort-Sorts [] = (tt, ([], refl))
  sort-Sorts (r ∷ rs) =
      let (v, o) = sort-Sorts rs in
      (
        insert-IsOrdered r (sort rs) v,
        trans-Reorders (r ∷ rs) (r ∷ sort rs) (insert r (sort rs)) (cons-Reorders r rs (sort rs) o)
            (insert-Reorders r (sort rs)),
      )
