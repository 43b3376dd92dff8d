-- ===== src/Chronology/Partition/Required.antt =====
-- When the status of a partition plan asks for compaction.
use llm_api_mind.Base.{
  ℕ, ◌+◌, ◌≤◌, ◌<◌, List, [], ◌∷◌, reverse, true, false, ◌≡◌, refl, ◌↔◌, is_some, arith, eq_iff,
  Bool-cases, inl, inr, leb, leb→le, ◌==◌,
}
use llm_api_mind.Chronology.SourceMap.{SourceMap, MappedTurn}
use llm_api_mind.Chronology.Partition.{
  Budgets, Pick, requires_compaction, pick, no_pick, turns_of, verified, plan_status,
  conversation_capacity, build_history_partition_plan,
}
use llm_api_mind.Chronology.Partition.Selection.{pick-Newest}

abbrev first_cost : List MappedTurn → ℕ
first_cost [] = 0
first_cost (u ∷ us) = u.estimated_tokens

-- what the newest turn of a source map costs, and 0 if there is none
abbrev pub newest_cost : SourceMap → ℕ
newest_cost m = first_cost (reverse (turns_of m))

-- neither report of an oversized turn is made
abbrev Plain : Pick → Type 0
Plain p = (is_some p.single_turn_exception ≡ false) × (is_some p.physical_window_failure ≡ false)

small-Plain :
    (b : Budgets) (l : List MappedTurn)
    → first_cost l ≤ b.verbatim_max_tokens
    → Plain (pick b l no_pick)
small-Plain b [] h = unfold pick in (refl, refl)
small-Plain b (u ∷ us) h = let n = (pick-Newest b u us).small h in (rw n.0 refl, rw n.1 refl)

Plain-small :
    (b : Budgets) (l : List MappedTurn)
    → Plain (pick b l no_pick)
    → first_cost l ≤ b.verbatim_max_tokens
Plain-small b [] h = omega arith
Plain-small b (u ∷ us) (e, f) = elim (Bool-cases (leb u.estimated_tokens b.verbatim_max_tokens)) [
  | inl small ↦ leb→le _ _ small
  | inr big ↦ elim (Bool-cases (leb u.estimated_tokens b.model_window_tokens)) [
    | inl fits ↦
        let n = (pick-Newest b u us).large (ground (arith, big)) (ground (arith, fits)) in
        absurd (ground (arith, e, n.2))
    | inr exceeds ↦
        let n = (pick-Newest b u us).too_large (ground (arith, big)) (ground (arith, exceeds)) in
        absurd (ground (arith, f, n.2))
  ]
]

-- the tests of the chain, as sums
abbrev Asks : Budgets → SourceMap → Type 0
Asks b m =
    (verified m ≡ true)
    × (b.mode ≡ "active")
    × (b.trigger_tokens ≤ b.external_context_tokens + b.provider_history_tokens)
    × (b.external_context_tokens + b.summary_max_tokens + b.verbatim_max_tokens + b.safety_tokens
        < b.operational_limit_tokens)

status-Asks :
    (b : Budgets) (m : SourceMap) (p : Pick)
    → plan_status b m p ≡ requires_compaction
    → Asks b m × Plain p
unfolding plan_status conversation_capacity
status-Asks b m p e = ground (arith, eq_iff b.mode "active")

Asks-status :
    (b : Budgets) (m : SourceMap) (p : Pick)
    → Asks b m
    → Plain p
    → plan_status b m p ≡ requires_compaction
unfolding plan_status conversation_capacity
Asks-status b m p (v, mode, trigger, room) (e, f) =
    let shadow : (b.mode == "shadow") ≡ false = rw mode refl in
    let active : (b.mode == "active") ≡ true = rw mode refl in
    ground (arith, shadow, active, v, trigger, room, e, f)

-- The plan asks for compaction exactly if the source map is verified, the mode is `active`, the
-- estimated input has reached the trigger, the context, a full summary, the verbatim budget and the
-- safety margin leave room for growth below the operational limit, and the newest turn, if there is
-- one, fits the verbatim budget.
pub requires_compaction_iff :
    (b : Budgets) (m : SourceMap)
    → (build_history_partition_plan b m).status ≡ requires_compaction ↔ (
        (verified m ≡ true)
        × (b.mode ≡ "active")
        × (b.trigger_tokens ≤ b.external_context_tokens + b.provider_history_tokens)
        × (b.external_context_tokens + b.summary_max_tokens + b.verbatim_max_tokens
              + b.safety_tokens
            < b.operational_limit_tokens)
        × (newest_cost m ≤ b.verbatim_max_tokens))
unfolding build_history_partition_plan
requires_compaction_iff b m = (
  (λ e.
      let (asks, plain) = status-Asks b m (pick b (reverse (turns_of m)) no_pick) e in
      (asks.0, asks.1, asks.2, asks.3, Plain-small b (reverse (turns_of m)) plain)),
  (λ h.
      Asks-status b m (pick b (reverse (turns_of m)) no_pick) (h.0, h.1, h.2, h.3)
        (small-Plain b (reverse (turns_of m)) h.4)),
)
