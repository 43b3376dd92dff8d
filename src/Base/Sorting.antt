-- ===== src/Base/Sorting.antt =====
-- `ORDER BY` and `sorted`: insertion by a key, stable on equal keys.
use Prim.Native.Nat.{ℕ, Ordering, compare as compare_nat}
use Prim.Native.String.{String, compare as compare_text}
use mathlib.Core.Path.{◌≡◌, refl, sym, subst}
use mathlib.Core.Bool.{Bool, true, false}
use mathlib.Core.Logic.{inl, inr}
use mathlib.Core.List.{List, [], ◌∷◌}
use llm_api_mind.Base.Tests.{Bool-cases}
use llm_api_mind.Base.Lists.{All}

-- one key after another
abbrev pub then_by : Ordering → Ordering → Ordering
then_by Ordering.lt o = Ordering.lt
then_by Ordering.eq o = o
then_by Ordering.gt o = Ordering.gt

abbrev pub before : Ordering → Bool
before Ordering.gt = false
before _ = true

module _ {ℓ} {A : Type ℓ} (cmp : A → A → Ordering) where
  unfoldable pub insert_by : A → List A → List A
  insert_by a [] = a ∷ []
  insert_by a (x ∷ xs) =
      let rest = insert_by a xs in elim (before (cmp a x)) [ true ↦ a ∷ x ∷ xs | false ↦ x ∷ rest ]

  unfoldable pub sort_by : List A → List A
  unfolding insert_by
  sort_by [] = []
  sort_by (x ∷ xs) = insert_by x (sort_by xs)

  pub insert_by_first :
      (a x : A) (xs : List A) → before (cmp a x) ≡ true → insert_by a (x ∷ xs) ≡ a ∷ x ∷ xs
  unfolding insert_by
  insert_by_first a x xs h = rw (insert_by, h) refl

  pub insert_by_later :
      (a x : A) (xs : List A) → before (cmp a x) ≡ false → insert_by a (x ∷ xs) ≡ x ∷ insert_by a xs
  unfolding insert_by
  insert_by_later a x xs h = rw (insert_by, h) refl

  insert_by-All {κ} :
      (P : A → Type κ) (a : A) (xs : List A) → P a → All P xs → All P (insert_by a xs)
  unfolding insert_by
  insert_by-All P a [] pa ps = (pa, tt)
  insert_by-All P a (x ∷ xs) pa ps = elim (Bool-cases (before (cmp a x))) [
    | inl e ↦ subst (All P) (sym (insert_by_first a x xs e)) (pa, ps)
    | inr e ↦ subst (All P) (sym (insert_by_later a x xs e)) (ps.0, insert_by-All P a xs pa ps.1)
  ]

  pub sort_by-All {κ} : (P : A → Type κ) (xs : List A) → All P xs → All P (sort_by xs)
  unfolding sort_by
  sort_by-All P [] ps = tt
  sort_by-All P (x ∷ xs) ps = insert_by-All P x (sort_by xs) ps.0 (sort_by-All P xs ps.1)

-- rows by a time stamp, then by id
abbrev pub by_time : ℕ → String → ℕ → String → Ordering
by_time t i u j = then_by (compare_nat t u) (compare_text i j)

unfoldable pub sorted : List String → List String
unfolding sort_by
sorted xs = sort_by compare_text xs
