-- ===== src/Base/Numbers.antt =====
-- How many items of a list pass a test, under the operations that a query consists of.
use Prim.Native.Nat.{ℕ, zero, suc, Ordering, ◌+◌, ◌≤◌}
use mathlib.Core.Path.{◌≡◌, refl, ap, ◌∙◌}
use mathlib.Core.Bool.{Bool, true, ◌&&◌}
use mathlib.Core.List.{List, [], ◌∷◌, ◌++◌, map}
use mathlib.Core.Logic.{inl, inr}
use native.Mathlib.Omega.{arith}
use llm_api_mind.Base.Tests.{if◌then◌else◌, Bool-cases}
use llm_api_mind.Base.Lists.{filter, length, take}
use llm_api_mind.Base.Sorting.{before, insert_by, sort_by, insert_by_first, insert_by_later}

module _ {A : Type 0} where
  abbrev pub number_of : (A → Bool) → List A → ℕ
  number_of p [] = 0
  number_of p (x ∷ l) = if p x then suc (number_of p l) else number_of p l

  pub number_of-append :
      (p : A → Bool) (l k : List A) → number_of p (l ++ k) ≡ number_of p l + number_of p k
  number_of-append p [] k = omega arith
  number_of-append p (x ∷ l) k = ground (arith, number_of-append p l k)

  pub number_of-filter :
      (p q : A → Bool) (l : List A) → number_of q (filter p l) ≡ number_of (λ x. p x && q x) l
  number_of-filter p q [] = refl
  number_of-filter p q (x ∷ l) = ground (arith, number_of-filter p q l)

  pub number_of_eq :
      (p q : A → Bool) (l : List A) → ((x : A) → p x ≡ q x) → number_of p l ≡ number_of q l
  number_of_eq p q [] h = refl
  number_of_eq p q (x ∷ l) h = ground (arith, h x, number_of_eq p q l h)

  -- a rewriting of the items that lets no more of them pass
  pub number_of-map :
      (p : A → Bool) (f : A → A) (l : List A)
      → ((x : A) → p (f x) ≡ true → p x ≡ true)
      → number_of p (map f l) ≤ number_of p l
  number_of-map p f [] h = omega arith
  number_of-map p f (x ∷ l) h = ground (arith, h x, number_of-map p f l h)

  pub length-number_of : (l : List A) → length l ≡ number_of (λ x. true) l
  length-number_of [] = refl
  length-number_of (x ∷ l) = ap suc (length-number_of l)

  pub take_all : (n : ℕ) (l : List A) → length l ≤ n → take n l ≡ l
  take_all zero [] h = refl
  take_all zero (x ∷ l) h = absurd (omega arith)
  take_all (suc n) [] h = refl
  take_all (suc n) (x ∷ l) h = ap (λ k. x ∷ k) (take_all n l (omega arith))

  module _ (p : A → Bool) (cmp : A → A → Ordering) where
    insert_by-number_of :
        (a : A) (l : List A) → number_of p (insert_by cmp a l) ≡ number_of p (a ∷ l)
    unfolding insert_by
    insert_by-number_of a [] = refl
    insert_by-number_of a (x ∷ l) = elim (Bool-cases (before (cmp a x))) [
      | inl e ↦ ap (number_of p) (insert_by_first cmp a x l e)
      | inr e ↦
          ap (number_of p) (insert_by_later cmp a x l e) ∙ ground (arith, insert_by-number_of a l)
    ]

    pub sort_by-number_of : (l : List A) → number_of p (sort_by cmp l) ≡ number_of p l
    unfolding sort_by
    sort_by-number_of [] = refl
    sort_by-number_of (x ∷ l) =
        insert_by-number_of x (sort_by cmp l) ∙ ground (arith, sort_by-number_of l)

  -- a query whose limit is not reached counts what the table holds
  pub query-number_of :
      (cmp : A → A → Ordering) (f t q : A → Bool) (n : ℕ) (l : List A)
      → number_of f l ≤ n
      → number_of q (filter t (take n (sort_by cmp (filter f l))))
        ≡ number_of (λ x. f x && (t x && q x)) l
  query-number_of cmp f t q n l few =
      let rows : List A = sort_by cmp (filter f l) in
      let whole : length rows ≡ number_of f l =
        length-number_of rows
        ∙ sort_by-number_of (λ x. true) cmp (filter f l)
        ∙ number_of-filter f (λ x. true) l
        ∙ number_of_eq (λ x. f x && true) f l (λ x. ground arith) in
      ap (λ k. number_of q (filter t k)) (take_all n rows (omega (arith, whole)))
      ∙ number_of-filter t q rows
      ∙ sort_by-number_of (λ x. t x && q x) cmp (filter f l)
      ∙ number_of-filter f (λ x. t x && q x) l
