-- ===== src/Modules/Plan/Ends.antt =====
-- `while changed` of `build_activation_plan` ends: a round that changes something blocks one more
-- module.
use llm_api_mind.Base.{
  ℕ, zero, suc, ◌+◌, ◌≤◌, ◌<◌, String, Option, some, List, [], ◌∷◌, Bool, true, false, ◌||◌, not,
  ◌≡◌, refl, arith, All, All-map, Bool-cases, Option-cases, inl, inr, if◌then◌else◌, contains,
  eq_refl, length, ap,
}
use llm_api_mind.Base.Counts.{passing, passing_lt}
use llm_api_mind.Modules.Ledger.{Ledger, is_blocked, block}
use llm_api_mind.Modules.Graph.{Graph, edges}
use llm_api_mind.Modules.Plan.{
  Manifests, manifest_order, first_blocked, propagate_one, propagate_round, propagate,
}
use llm_api_mind.Modules.Plan.Blocking.{block-Grows, block_blocks}
use llm_api_mind.Modules.Plan.Propagation.{one_skips, one_free, one_blocks}

-- how many of the modules are not blocked, and one for a change
abbrev unblocked : List String → Ledger → ℕ
unblocked whole l = passing (λ i. not (is_blocked l.blocked i)) whole

abbrev bit : Bool → ℕ
bit c = if c then 1 else 0

block_drops :
    (whole : List String) (l : Ledger) (i code : String) (dep : Option String)
    → contains whole i ≡ true
    → is_blocked l.blocked i ≡ false
    → unblocked whole (block l i code dep) < unblocked whole l
block_drops whole l i code dep here open_ =
    passing_lt (λ j. not (is_blocked l.blocked j))
      (λ j. not (is_blocked (block l i code dep).blocked j))
      (λ j h. ground (arith, block-Grows l i code dep j, h)) whole i here (ground (arith, open_))
      (ground (arith, block_blocks l i code dep))

module _ (whole : List String) (eligible : String → Bool) (g : Graph) where
  abbrev measure : Ledger × Bool → ℕ
  measure s = unblocked whole s.0 + bit s.1

  one_le :
      (i : String) (l : Ledger) (c : Bool)
      → contains whole i ≡ true
      → measure (propagate_one eligible g i (l, c)) ≤ unblocked whole l + bit c
  one_le i l c here = elim (Bool-cases (not (eligible i) || is_blocked l.blocked i)) [
    | inl e ↦ rw (one_skips eligible g i l c e) (omega arith)
    | inr e ↦ elim (Option-cases (first_blocked l.blocked (edges g i))) [
      | inl n ↦ rw (one_free eligible g i l c e n) (omega arith)
      | inr (d, n) ↦ rw (one_blocks eligible g i l c e n) (
          ground (
            arith,
            block_drops whole l i "dependency.required_blocked" (some d) here (ground (arith, e)),
          ))
    ]
  ]

  round_le :
      (ids : List String) (s : Ledger × Bool)
      → All (λ i. contains whole i ≡ true) ids
      → measure (propagate_round eligible g ids s) ≤ measure s
  unfolding propagate_round
  round_le [] s all_here = omega arith
  round_le (i ∷ ids) s (here, rest) =
      omega (arith, one_le i s.0 s.1 here, round_le ids (propagate_one eligible g i s) rest)

  propagate_ends :
      (fuel : ℕ) (ids : List String) (l : Ledger)
      → All (λ i. contains whole i ≡ true) ids
      → unblocked whole l < fuel
      → (k : Ledger) × (propagate fuel eligible g ids l ≡ some k)
  unfolding propagate
  propagate_ends zero ids l all_here enough = absurd (omega arith)
  propagate_ends (suc fuel) ids l all_here enough =
      let s : Ledger × Bool = propagate_round eligible g ids (l, false) in
      let falls : measure s ≤ unblocked whole l + 0 = round_le ids (l, false) all_here in
      elim (Bool-cases s.1) [
        | inr quiet ↦ (s.0, rw quiet refl)
        | inl changed ↦
            let one : bit s.1 ≡ 1 = ap bit changed in
            rw changed (propagate_ends fuel ids s.0 all_here (omega arith))
      ]

lists_itself : (l : List String) → All (λ i. contains l i ≡ true) l
lists_itself [] = tt
lists_itself (i ∷ l) = (
  ground (arith, eq_refl i),
  All-map (λ j. contains l j ≡ true) (λ j. contains (i ∷ l) j ≡ true) (λ j h. ground (arith, h)) l
      (lists_itself l),
)

unblocked_le : (ms : Manifests) (l : Ledger) → unblocked (manifest_order ms) l ≤ length ms
unblocked_le [] l = omega arith
unblocked_le (m ∷ ms) l = ground (arith, unblocked_le ms l)

-- One round more than there are manifests is enough.
pub propagate_total :
    (eligible : String → Bool) (g : Graph) (ms : Manifests) (l : Ledger)
    → (k : Ledger) × (propagate (suc (length ms)) eligible g (manifest_order ms) l ≡ some k)
propagate_total eligible g ms l =
    propagate_ends (manifest_order ms) eligible g (suc (length ms)) (manifest_order ms) l
      (lists_itself (manifest_order ms)) (omega (arith, unblocked_le ms l))
