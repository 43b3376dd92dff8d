-- ===== src/Base/Sets.antt =====
-- Python's `in` on a list or set of texts.
use Prim.Native.String.{String}
use mathlib.Core.Path.{◌≡◌, refl}
use mathlib.Core.Bool.{Bool, true, false, ◌||◌, ◌&&◌, not}
use mathlib.Core.List.{List, [], ◌∷◌, ◌++◌}
use native.Mathlib.Omega.{arith}
use text.Mathlib.Text.{◌==◌}
use llm_api_mind.Base.Tests.{if◌then◌else◌, Bool-cases}
use llm_api_mind.Base.Lists.{All}
use mathlib.Core.Path.{sym, subst}
use mathlib.Core.Logic.{inl, inr}
use text.Mathlib.TextEquality.{eq_iff}

abbrev pub contains : List String → String → Bool
contains [] a = false
contains (x ∷ xs) a = a == x || contains xs a

pub contains-append :
    (xs ys : List String) (a : String) → contains (xs ++ ys) a ≡ (contains xs a || contains ys a)
contains-append [] ys a = refl
contains-append (x ∷ xs) ys a = ground (arith, contains-append xs ys a)

-- no text stands twice
abbrev pub distinct : List String → Bool
distinct [] = true
distinct (x ∷ xs) = not (contains xs x) && distinct xs

-- every text of the first list is in the second
abbrev pub subset : List String → List String → Bool
subset [] ys = true
subset (x ∷ xs) ys = contains ys x && subset xs ys

-- `list(dict.fromkeys(values))`
unfoldable pub once : List String → List String → List String
once seen [] = []
once seen (v ∷ values) =
    let rest = once (v ∷ seen) values in if contains seen v then rest else v ∷ rest

-- what holds of every text of a list holds of each one in it
pub All-contains {ℓ} :
    (P : String → Type ℓ) (l : List String) (a : String) → All P l → contains l a ≡ true → P a
All-contains P [] a ps h = cc
All-contains P (x ∷ l) a ps h = elim (Bool-cases (a == x)) [
  | inl e ↦ subst P (sym ((eq_iff a x).0 e)) ps.0
  | inr e ↦ All-contains P l a ps.1 (ground (arith, h, e))
]
