-- ===== src/Base/Counts.antt =====
-- How many texts of a list pass a test: the measure of the loops that mark or block a text a round.
use Prim.Native.Nat.{ℕ, suc, ◌≤◌, ◌<◌}
use Prim.Native.String.{String}
use mathlib.Core.Path.{◌≡◌, subst}
use mathlib.Core.Bool.{Bool, true, false}
use mathlib.Core.List.{List, [], ◌∷◌}
use mathlib.Core.Logic.{inl, inr}
use native.Mathlib.Omega.{arith}
use text.Mathlib.TextEquality.{eq_iff}
use text.Mathlib.Text.{◌==◌}
use llm_api_mind.Base.Tests.{if◌then◌else◌, Bool-cases}
use llm_api_mind.Base.Sets.{contains}

abbrev pub passing : (String → Bool) → List String → ℕ
passing p [] = 0
passing p (x ∷ l) = if p x then suc (passing p l) else passing p l

module _ (p q : String → Bool) (fewer : (i : String) → q i ≡ true → p i ≡ true) where
  pub passing_le : (l : List String) → passing q l ≤ passing p l
  passing_le [] = omega arith
  passing_le (x ∷ l) = ground (arith, passing_le l, fewer x)

  -- a text that no longer passes lowers the number
  pub passing_lt :
      (l : List String) (i : String)
      → contains l i ≡ true
      → p i ≡ true
      → q i ≡ false
      → passing q l < passing p l
  passing_lt [] i h was gone = cc
  passing_lt (x ∷ l) i h was gone = elim (Bool-cases (i == x)) [
    | inl same ↦
        let e : i ≡ x = (eq_iff i x).0 same in
        let was' : p x ≡ true = subst (λ j. p j ≡ true) e was in
        let gone' : q x ≡ false = subst (λ j. q j ≡ false) e gone in
        ground (arith, was', gone', passing_le l)
    | inr other ↦ ground (arith, passing_lt l i (ground (arith, h, other)) was gone, fewer x)
  ]
