-- ===== src/Chronology/Partition.antt =====
-- `build_history_partition_plan` of backend/app/runtime/history_compaction.py. Token counts are
-- natural numbers, so that `max(0, a - b)` is the difference that stops at 0. The plan's constant
-- texts (`policy`, `purpose`, `trigger_basis`, `activation_gate`, …) are left out.
pub mod Selection
pub mod Budget
pub mod Required
use llm_api_mind.Base.{
  ℕ, ◌+◌, ◌-◌, String, Option, none, some, List, [], ◌∷◌, ◌++◌, map, reverse, Bool, true, false,
  ◌&&◌, ◌||◌, ◌==◌, not, is_some, leb, ltb, nat_eq, filter, contains, sum_by, length, if◌then◌else◌,
}
use llm_api_mind.Chronology.SourceMap.{SourceMap, unavailable, mapped, MappedTurn, LegacyPrefix}
use llm_api_mind.Chronology.SourceMap.Sound.{turn_ids}

pub record Budgets : Type 0 where
  pub external_context_tokens : ℕ
  pub provider_history_tokens : ℕ
  pub trigger_tokens : ℕ
  pub operational_limit_tokens : ℕ
  pub model_window_tokens : ℕ
  pub summary_max_tokens : ℕ
  pub verbatim_max_tokens : ℕ
  pub safety_tokens : ℕ
  pub mode : String

pub record SingleTurnException : Type 0 where
  pub turn_id : String
  pub estimated_tokens : ℕ
  pub verbatim_budget_tokens : ℕ
  pub physical_model_window_tokens : ℕ

pub record PhysicalWindowFailure : Type 0 where
  pub turn_id : String
  pub estimated_tokens : ℕ
  pub physical_model_window_tokens : ℕ

-- the variables of the loop over `reversed(turns)`
pub record Pick : Type 0 where
  pub selected_reversed : List MappedTurn
  pub selected_tokens : ℕ
  pub single_turn_exception : Option SingleTurnException
  pub physical_window_failure : Option PhysicalWindowFailure

abbrev pub is_nonempty : List MappedTurn → Bool
is_nonempty [] = false
is_nonempty (u ∷ us) = true

abbrev pub add_turn : MappedTurn → Pick → Pick
add_turn u p = record p {
  selected_reversed = p.selected_reversed ++ u ∷ [];
  selected_tokens = p.selected_tokens + u.estimated_tokens;
}

-- the branch that ends the loop at a turn above the verbatim budget
unfoldable pub oversized : Budgets → MappedTurn → Pick → Pick
oversized b u p =
    if leb u.estimated_tokens b.model_window_tokens
    then record p {
      selected_reversed = p.selected_reversed ++ u ∷ [];
      selected_tokens = u.estimated_tokens;
      single_turn_exception = some (record {
        turn_id = u.turn_id;
        estimated_tokens = u.estimated_tokens;
        verbatim_budget_tokens = b.verbatim_max_tokens;
        physical_model_window_tokens = b.model_window_tokens;
      });
    }
    else record p {
      physical_window_failure = some (record {
        turn_id = u.turn_id;
        estimated_tokens = u.estimated_tokens;
        physical_model_window_tokens = b.model_window_tokens;
      });
    }

-- the loop, over the turns from the newest to the oldest
unfoldable pub pick : Budgets → List MappedTurn → Pick → Pick
unfolding oversized
pick b [] p = p
pick b (u ∷ us) p =
    let rest = pick b us (add_turn u p) in
    if is_nonempty p.selected_reversed || leb u.estimated_tokens b.verbatim_max_tokens
    then (if ltb b.verbatim_max_tokens (p.selected_tokens + u.estimated_tokens) then p else rest)
    else oversized b u p

abbrev pub no_pick : Pick
no_pick = record {
  selected_reversed = [];
  selected_tokens = 0;
  single_turn_exception = none;
  physical_window_failure = none;
}

pub data PlanStatus : Type 0 where
  disabled below_partition_trigger would_recompact requires_compaction : PlanStatus
  source_map_unavailable single_turn_exceeds_physical_model_window : PlanStatus
  partition_budget_invalid single_turn_exceeds_operational_partition : PlanStatus

pub data SummarySource : Type 0 where
  legacy_provider_history_prefix : (sha256 : Option String) (estimated_tokens : ℕ) → SummarySource
  completed_turn : (turn_id sha256 : String) (estimated_tokens : ℕ) → SummarySource

pub record PartitionPlan : Type 0 where
  pub status : PlanStatus
  pub shadow_only : Bool
  pub mode : String
  pub would_trigger : Bool
  pub trigger_tokens : ℕ
  pub total_estimated_input_tokens : ℕ
  pub external_context_tokens : ℕ
  pub summary_max_tokens : ℕ
  pub input_turn_ids : List String
  pub input_sources : List SummarySource
  pub input_estimated_tokens : ℕ
  pub verbatim_max_tokens : ℕ
  pub selected_turn_ids : List String
  pub selected_estimated_tokens : ℕ
  pub selected_turn_count : ℕ
  pub active_growth_tokens : ℕ
  pub safety_tokens : ℕ
  pub conversation_capacity_tokens : ℕ
  pub provider_history_estimated_tokens : ℕ
  pub projected_post_compaction_reserved_tokens : ℕ
  pub single_turn_exception : Option SingleTurnException
  pub single_turn_exception_active_growth_tokens : Option ℕ
  pub physical_window_failure : Option PhysicalWindowFailure
  pub source_map_complete : Bool
  pub source_history_sha256 : Option String

-- `source_map.get("turns") if status == "complete" else []`
abbrev pub turns_of : SourceMap → List MappedTurn
turns_of (unavailable f) = []
turns_of (mapped m) = if m.mapping_verified then m.turns else []

abbrev pub legacy_tokens : SourceMap → ℕ
legacy_tokens (unavailable f) = 0
legacy_tokens (mapped m) = m.legacy_prefix.estimated_tokens

abbrev pub legacy_sha256 : SourceMap → Option String
legacy_sha256 (unavailable f) = none
legacy_sha256 (mapped m) = m.legacy_prefix.sha256

abbrev pub verified : SourceMap → Bool
verified (unavailable f) = false
verified (mapped m) = m.mapping_verified

abbrev pub history_sha256 : SourceMap → Option String
history_sha256 (unavailable f) = none
history_sha256 (mapped m) = some m.canonical_history_sha256

unfoldable pub conversation_capacity : Budgets → ℕ
conversation_capacity b = b.operational_limit_tokens - b.external_context_tokens - b.safety_tokens

unfoldable pub active_growth : Budgets → ℕ
unfolding conversation_capacity
active_growth b = conversation_capacity b - b.summary_max_tokens - b.verbatim_max_tokens

-- the `status` chain
unfoldable pub plan_status : Budgets → SourceMap → Pick → PlanStatus
unfolding conversation_capacity
plan_status b map p =
    if not (verified map)
    then source_map_unavailable
    else if is_some p.physical_window_failure
    then single_turn_exceeds_physical_model_window
    else if leb (conversation_capacity b) (b.summary_max_tokens + b.verbatim_max_tokens)
    then partition_budget_invalid
    else if is_some p.single_turn_exception
    then single_turn_exceeds_operational_partition
    else if b.mode == "shadow" && leb b.trigger_tokens total
    then would_recompact
    else if b.mode == "active" && leb b.trigger_tokens total
    then requires_compaction
    else if b.mode == "off"
    then disabled
    else below_partition_trigger
  where
    total : ℕ
    total = b.external_context_tokens + b.provider_history_tokens

unfoldable pub compacted_turns : List MappedTurn → List MappedTurn → List MappedTurn
compacted_turns turns selected = filter (λ u. not (contains (turn_ids selected) u.turn_id)) turns

abbrev pub costs : List MappedTurn → ℕ
costs = sum_by (λ u. u.estimated_tokens)

unfoldable pub summary_sources : SourceMap → List MappedTurn → List SummarySource
summary_sources map compacted =
    (if ltb 0 (legacy_tokens map)
      then legacy_provider_history_prefix (legacy_sha256 map) (legacy_tokens map) ∷ []
      else [])
    ++ turn_sources compacted
  where
    turn_sources : List MappedTurn → List SummarySource
    turn_sources [] = []
    turn_sources (u ∷ us) = completed_turn u.turn_id u.sha256 u.estimated_tokens ∷ turn_sources us

unfoldable pub exceptional_growth : Budgets → Pick → Option ℕ
exceptional_growth b p =
    if is_some p.single_turn_exception
    then some (
        b.operational_limit_tokens - b.external_context_tokens - b.safety_tokens
        - b.summary_max_tokens - p.selected_tokens)
    else none

unfoldable pub build_history_partition_plan : Budgets → SourceMap → PartitionPlan
unfolding pick plan_status compacted_turns summary_sources exceptional_growth active_growth
build_history_partition_plan b source_map =
    let turns = turns_of source_map in
    let p = pick b (reverse turns) no_pick in
    let selected = reverse p.selected_reversed in
    let compacted = compacted_turns turns selected in
    record {
      status = plan_status b source_map p;
      shadow_only = b.mode == "shadow";
      mode = b.mode;
      would_trigger = leb b.trigger_tokens (b.external_context_tokens + b.provider_history_tokens);
      trigger_tokens = b.trigger_tokens;
      total_estimated_input_tokens = b.external_context_tokens + b.provider_history_tokens;
      external_context_tokens = b.external_context_tokens;
      summary_max_tokens = b.summary_max_tokens;
      input_turn_ids = turn_ids compacted;
      input_sources = summary_sources source_map compacted;
      input_estimated_tokens = legacy_tokens source_map + costs compacted;
      verbatim_max_tokens = b.verbatim_max_tokens;
      selected_turn_ids = turn_ids selected;
      selected_estimated_tokens = p.selected_tokens;
      selected_turn_count = length selected;
      active_growth_tokens = active_growth b;
      safety_tokens = b.safety_tokens;
      conversation_capacity_tokens = conversation_capacity b;
      provider_history_estimated_tokens = b.provider_history_tokens;
      projected_post_compaction_reserved_tokens =
          b.external_context_tokens
          + b.summary_max_tokens
          + b.verbatim_max_tokens
          + active_growth b
          + b.safety_tokens;
      single_turn_exception = p.single_turn_exception;
      single_turn_exception_active_growth_tokens = exceptional_growth b p;
      physical_window_failure = p.physical_window_failure;
      source_map_complete = verified source_map;
      source_history_sha256 = history_sha256 source_map;
    }
