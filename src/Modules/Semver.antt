-- ===== src/Modules/Semver.antt =====
-- SemVer values of backend/scarlet_agentic_module_sdk/contracts.py. A text is the list of its code
-- points. The regular expression is written out as the cuts that it makes: the first `+` ends the
-- precedence part, and the first `-` before it ends the numbers.
use Prim.Native.Char.{code}
use Prim.Native.Nat.{compare, Ordering}
use llm_api_mind.Base.{
  ℕ, ◌+◌, ◌*◌, ◌-◌, String, Option, none, some, List, [], ◌∷◌, Bool, true, false, ◌&&◌, ◌||◌, not,
  leb, nat_eq, ltb, all, if◌then◌else◌, ◌>>=◌,
}

abbrev pub codes : String → List ℕ
codes String.[] = []
codes (String.◌∷◌ c s) = code c ∷ codes s

-- the text before the first `sep`, and the text behind it if there is one
unfoldable pub cut : ℕ → List ℕ → List ℕ × Option (List ℕ)
cut sep [] = ([], none)
cut sep (c ∷ s) =
    let (head, tail) = cut sep s in
    elim (nat_eq c sep) [ true ↦ ([], some s) | false ↦ (c ∷ head, tail) ]

-- `text.split(sep)`
unfoldable pub split : ℕ → List ℕ → List (List ℕ)
split sep [] = [] ∷ []
split sep (c ∷ s) = join c (split sep s) (nat_eq c sep)
  where
    join : ℕ → List (List ℕ) → Bool → List (List ℕ)
    join c parts true = [] ∷ parts
    join c [] false = (c ∷ []) ∷ []
    join c (part ∷ parts) false = (c ∷ part) ∷ parts

abbrev pub is_digit : ℕ → Bool
is_digit c = leb b'0' c && leb c b'9'

abbrev is_word : ℕ → Bool
is_word c = is_digit c || leb b'A' c && leb c b'Z' || leb b'a' c && leb c b'z' || nat_eq c b'-'

abbrev is_nonempty : List ℕ → Bool
is_nonempty [] = false
is_nonempty (c ∷ s) = true

-- `text.isdigit()`, on the characters that the expression lets through
unfoldable pub is_numeric : List ℕ → Bool
is_numeric s = is_nonempty s && all is_digit s

-- `len(part) > 1 and part.startswith("0")`
unfoldable pub has_leading_zero : List ℕ → Bool
has_leading_zero (c ∷ d ∷ s) = nat_eq c b'0'
has_leading_zero _ = false

-- `int(text)`
unfoldable pub to_int : ℕ → List ℕ → ℕ
to_int n [] = n
to_int n (c ∷ s) = to_int (n * 10 + (c - 48)) s

-- the value of `_semver_parts`, with the prerelease split at its dots
pub record Semver : Type 0 where
  pub major : ℕ
  pub minor : ℕ
  pub patch : ℕ
  pub prerelease : Option (List (List ℕ))

-- `0|[1-9][0-9]*`
abbrev numeric_part : List ℕ → Option ℕ
numeric_part s = if is_numeric s && not (has_leading_zero s) then some (to_int 0 s) else none

abbrev identifiers : List ℕ → Option (List (List ℕ))
identifiers s =
    if all (λ part. is_nonempty part && all is_word part) (split b'.' s)
    then some (split b'.' s)
    else none

abbrev optional_identifiers : Option (List ℕ) → Option (Option (List (List ℕ)))
optional_identifiers none = some none
optional_identifiers (some s) = do parts ← identifiers s; some (some parts)

-- the check behind the match: no numeric prerelease identifier starts with a zero
abbrev checked_prerelease : Option (List (List ℕ)) → Bool
checked_prerelease none = true
checked_prerelease (some parts) = all (λ part. not (is_numeric part && has_leading_zero part)) parts

abbrev core_parts : List (List ℕ) → Option (List (List ℕ)) → Option Semver
core_parts (a ∷ b ∷ c ∷ []) prerelease = do
  major ← numeric_part a
  minor ← numeric_part b
  patch ← numeric_part c
  some (record { major = major; minor = minor; patch = patch; prerelease = prerelease })
core_parts _ prerelease = none

-- `validate_semver` with `_semver_parts`; `none` is the `ValueError`
unfoldable pub parse_semver : String → Option Semver
unfolding cut split is_numeric has_leading_zero to_int
parse_semver value = do
  let (precedence, build) = cut b'+' (codes value)
  let (core, pre) = cut b'-' precedence
  prerelease ← optional_identifiers pre
  ignored ← optional_identifiers build
  version ← core_parts (split b'.' core) prerelease
  if checked_prerelease prerelease then some version else none

-- `<` on texts: by code points, a proper prefix first
unfoldable pub compare_codes : List ℕ → List ℕ → Ordering
compare_codes [] [] = Ordering.eq
compare_codes [] (d ∷ t) = Ordering.lt
compare_codes (c ∷ s) [] = Ordering.gt
compare_codes (c ∷ s) (d ∷ t) =
    let rest = compare_codes s t in
    elim (compare c d) [
      | Ordering.lt ↦ Ordering.lt
      | Ordering.eq ↦ rest
      | Ordering.gt ↦ Ordering.gt
    ]

abbrev pub is_eq : Ordering → Bool
is_eq Ordering.eq = true
is_eq _ = false

abbrev pub is_lt : Ordering → Bool
is_lt Ordering.lt = true
is_lt _ = false

-- `-1 if condition else 1`
abbrev below_if : Bool → Ordering
below_if true = Ordering.lt
below_if false = Ordering.gt

-- two different identifiers
unfoldable pub compare_parts : List ℕ → List ℕ → Ordering
unfolding is_numeric to_int compare_codes
compare_parts l r =
    if is_numeric l && is_numeric r
    then below_if (ltb (to_int 0 l) (to_int 0 r))
    else if is_numeric l || is_numeric r
    then below_if (is_numeric l)
    else below_if (is_lt (compare_codes l r))

-- the loop over `zip(left_parts, right_parts)` and the comparison of lengths behind it
unfoldable pub compare_identifiers : List (List ℕ) → List (List ℕ) → Ordering
unfolding compare_parts
compare_identifiers [] [] = Ordering.eq
compare_identifiers [] (r ∷ rs) = Ordering.lt
compare_identifiers (l ∷ ls) [] = Ordering.gt
compare_identifiers (l ∷ ls) (r ∷ rs) =
    let rest = compare_identifiers ls rs in
    elim (is_eq (compare_codes l r)) [ true ↦ rest | false ↦ compare_parts l r ]

-- `_compare_prerelease`
unfoldable pub compare_prerelease : Option (List (List ℕ)) → Option (List (List ℕ)) → Ordering
unfolding compare_identifiers
compare_prerelease none none = Ordering.eq
compare_prerelease none (some r) = Ordering.gt
compare_prerelease (some l) none = Ordering.lt
compare_prerelease (some l) (some r) = compare_identifiers l r

abbrev first_differing : Ordering → Ordering → Ordering
first_differing Ordering.lt o = Ordering.lt
first_differing Ordering.eq o = o
first_differing Ordering.gt o = Ordering.gt

-- `compare_semver`, on validated values
unfoldable pub compare_semver : Semver → Semver → Ordering
unfolding compare_prerelease
compare_semver l r = first_differing (compare l.major r.major) (
    first_differing (compare l.minor r.minor)
      (first_differing (compare l.patch r.patch) (compare_prerelease l.prerelease r.prerelease)))
