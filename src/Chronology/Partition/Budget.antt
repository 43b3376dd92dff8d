-- ===== src/Chronology/Partition/Budget.antt =====
-- The plan cuts the history in two, and its parts fit the budgets.
use llm_api_mind.Base.{
  ◌+◌, ◌≤◌, ◌<◌, none, List, [], ◌∷◌, ◌++◌, reverse, Bool, true, false, ◌≡◌, refl, sym, ap, ◌∙◌,
  ◌⊎◌, inl, inr, arith, subst, contains, contains-append, distinct, not, is_some, and-true, eq_refl,
  sum_by-append, eq_iff, ◌||◌,
}
use mathlib.Core.List.{map-append, reverse-append, reverse-reverse}
use llm_api_mind.Chronology.SourceMap.{SourceMap, MappedTurn}
use llm_api_mind.Chronology.SourceMap.Sound.{turn_ids}
use llm_api_mind.Chronology.Partition.{
  Budgets, Pick, PartitionPlan, requires_compaction, pick, no_pick, costs, turns_of, legacy_tokens,
  verified, compacted_turns, plan_status, conversation_capacity, active_growth,
  build_history_partition_plan,
}
use llm_api_mind.Chronology.Partition.Selection.{Picked, pick-Picked, Newest, pick-Newest}

-- `newer` follows `older`, and its last turns are what the plan keeps verbatim.
pub record IsCut (b : Budgets) (turns : List MappedTurn) (plan : PartitionPlan) : Type 0 where
  pub older : List MappedTurn
  pub newer : List MappedTurn
  pub split : turns ≡ older ++ newer
  pub selected : plan.selected_turn_ids ≡ turn_ids newer
  pub tokens : plan.selected_estimated_tokens ≡ costs newer
  -- the selection fits, or is one turn that fits the model's window
  pub fits :
      (costs newer ≤ b.verbatim_max_tokens) × (plan.single_turn_exception ≡ none)
      ⊎ ((u : MappedTurn) × (newer ≡ u ∷ [])
          × (b.verbatim_max_tokens < costs newer)
          × (costs newer ≤ b.model_window_tokens)
          × (is_some plan.single_turn_exception ≡ true))
  -- what becomes of a newest turn that exceeds the verbatim budget, and what is reported of it
  pub newest :
      (before : List MappedTurn) (u : MappedTurn)
      → turns ≡ before ++ u ∷ []
      → Newest b u newer plan.single_turn_exception plan.physical_window_failure
  -- one turn more would not fit
  pub maximal :
      (before : List MappedTurn) (u : MappedTurn)
      → older ≡ before ++ u ∷ []
      → b.verbatim_max_tokens < costs newer + u.estimated_tokens

costs-reverse : (us : List MappedTurn) → costs (reverse us) ≡ costs us
costs-reverse [] = refl
costs-reverse (u ∷ us) =
    ap costs (reverse-append (u ∷ []) us)
    ∙ omega
        (arith, sum_by-append {0} (λ v. v.estimated_tokens) (reverse us) (u ∷ []), costs-reverse us)

reversed_cons :
    (rest before : List MappedTurn) (u : MappedTurn)
    → reverse rest ≡ before ++ u ∷ []
    → rest ≡ u ∷ reverse before
reversed_cons rest before u e =
    sym (reverse-reverse rest) ∙ ap reverse e ∙ reverse-append before (u ∷ [])

or_right : (a c : Bool) → c ≡ true → (a || c) ≡ true
or_right a c h = ground arith

-- Dropping the kept turns from the whole history leaves the older ones.
drop_kept :
    (newer kept : List MappedTurn)
    → ((u : MappedTurn)
        → contains (turn_ids newer) u.turn_id ≡ true
        → contains (turn_ids kept) u.turn_id ≡ true)
    → compacted_turns newer kept ≡ []
unfolding compacted_turns
drop_kept [] kept h = refl
drop_kept (u ∷ us) kept h =
    ground (arith, h u, eq_refl u.turn_id, drop_kept us kept (λ v e. h v (or_right _ _ e)))

not_kept :
    (us newer : List MappedTurn) (u : MappedTurn)
    → not (contains (turn_ids (us ++ newer)) u.turn_id) ≡ true
    → contains (turn_ids newer) u.turn_id ≡ false
not_kept us newer u h =
    let e : turn_ids (us ++ newer) ≡ turn_ids us ++ turn_ids newer =
      map-append (λ u. u.turn_id) us newer in
    ground (
      arith,
      ap (λ l. contains l u.turn_id) e,
      contains-append (turn_ids us) (turn_ids newer) u.turn_id,
    )

kept-cons :
    (u : MappedTurn) (us kept : List MappedTurn)
    → contains (turn_ids kept) u.turn_id ≡ false
    → compacted_turns (u ∷ us) kept ≡ u ∷ compacted_turns us kept
unfolding compacted_turns
kept-cons u us kept e = ground arith

compacted-older :
    (older newer : List MappedTurn)
    → distinct (turn_ids (older ++ newer)) ≡ true
    → compacted_turns (older ++ newer) newer ≡ older
compacted-older [] newer d = drop_kept newer newer (λ u e. e)
compacted-older (u ∷ us) newer d =
    let (fresh, rest) = and-true (not (contains (turn_ids (us ++ newer)) u.turn_id)) _ d in
    let absent = not_kept us newer u fresh in
    kept-cons u (us ++ newer) newer absent ∙ ap (λ l. u ∷ l) (compacted-older us newer rest)

module _ (b : Budgets) (m : SourceMap) where
  picked : Picked b (reverse (turns_of m)) (pick b (reverse (turns_of m)) no_pick)
  picked = pick-Picked b (reverse (turns_of m)) no_pick (refl, omega arith, refl)

  cut :
      turns_of m
      ≡ reverse picked.rest ++ reverse (pick b (reverse (turns_of m)) no_pick).selected_reversed
  cut =
      sym (reverse-reverse (turns_of m))
      ∙ ap reverse (sym picked.split)
      ∙ reverse-append (pick b (reverse (turns_of m)) no_pick).selected_reversed picked.rest

  picked-Newest :
      (before : List MappedTurn) (u : MappedTurn)
      → turns_of m ≡ before ++ u ∷ []
      → let p = pick b (reverse (turns_of m)) no_pick in
        Newest b u (reverse p.selected_reversed) p.single_turn_exception p.physical_window_failure
  picked-Newest before u e =
      let turned : reverse (turns_of m) ≡ u ∷ reverse before =
        ap reverse e ∙ reverse-append before (u ∷ []) in
      let n = pick-Newest b u (reverse before) in
      subst
        (λ l.
          let p = pick b l no_pick in
          Newest b u (reverse p.selected_reversed) p.single_turn_exception
            p.physical_window_failure)
        (sym turned)
        (record {
          small = n.small;
          large = λ h w. let k = n.large h w in (ap reverse k.0, k.1, k.2);
          too_large = λ h w. let k = n.too_large h w in (ap reverse k.0, k.1, k.2);
        })

  -- The turns that the plan keeps verbatim are the newest ones, as many as fit the verbatim budget:
  -- one turn more would exceed it. A newest turn that alone exceeds the budget is kept, alone and
  -- reported as the exception, where it fits the model's window; where it does not, nothing is kept
  -- and it is reported as the failure. A newest turn within the budget causes neither report.
  pub plan-IsCut : IsCut b (turns_of m) (build_history_partition_plan b m)
  unfolding build_history_partition_plan
  plan-IsCut =
      let p : Picked b (reverse (turns_of m)) (pick b (reverse (turns_of m)) no_pick) = picked in
      let sel : List MappedTurn = (pick b (reverse (turns_of m)) no_pick).selected_reversed in
      let total = p.total ∙ sym (costs-reverse sel) in
      record {
        older = reverse p.rest;
        newer = reverse sel;
        split = cut;
        selected = refl;
        tokens = total;
        fits = elim p.fits [
          | inl (small, plain) ↦ inl (rw (costs-reverse sel, ← p.total) small, plain)
          | inr (u, single, large, window, reported) ↦ inr (
            u,
            ap reverse single,
            rw (costs-reverse sel, single) (omega arith),
            rw (costs-reverse sel, single) (omega arith),
            reported,
          )
        ];
        newest = picked-Newest;
        maximal = λ before u e.
            rw (costs-reverse sel, ← p.total)
              (p.maximal u (reverse before) (reversed_cons p.rest before u e));
      }

compacted_ids :
    (turns older newer : List MappedTurn)
    → turns ≡ older ++ newer
    → distinct (turn_ids turns) ≡ true
    → compacted_turns turns newer ≡ older
compacted_ids turns older newer e d =
    subst (λ l. compacted_turns l newer ≡ older) (sym e)
      (compacted-older older newer (subst (λ l. distinct (turn_ids l) ≡ true) e d))

module _ (b : Budgets) (m : SourceMap) (once : distinct (turn_ids (turns_of m)) ≡ true) where
  -- If no turn id stands twice in the source map, then the compacted turns followed by the verbatim
  -- turns are all turns in their order, and no estimated token is lost: the summary's input and the
  -- verbatim turns together cost what the legacy prefix and all turns cost.
  pub plan_partitions :
      let plan = build_history_partition_plan b m in
      (plan.input_turn_ids ++ plan.selected_turn_ids ≡ turn_ids (turns_of m))
      × (plan.input_estimated_tokens + plan.selected_estimated_tokens
          ≡ legacy_tokens m + costs (turns_of m))
  unfolding build_history_partition_plan
  plan_partitions =
      let p : Picked b (reverse (turns_of m)) (pick b (reverse (turns_of m)) no_pick) =
        picked b m in
      let sel : List MappedTurn = (pick b (reverse (turns_of m)) no_pick).selected_reversed in
      let whole : turns_of m ≡ reverse p.rest ++ reverse sel = cut b m in
      let older : compacted_turns (turns_of m) (reverse sel) ≡ reverse p.rest =
        compacted_ids (turns_of m) (reverse p.rest) (reverse sel) whole once in
      let ids =
        sym (ap turn_ids whole ∙ map-append (λ u. u.turn_id) (reverse p.rest) (reverse sel)) in
      let sums =
        ap costs whole ∙ sum_by-append (λ u. u.estimated_tokens) (reverse p.rest) (reverse sel) in
      (
        ap (λ l. turn_ids l ++ turn_ids (reverse sel)) older ∙ ids,
        omega (arith, ap costs older, sums, p.total, costs-reverse sel),
      )

-- What the status `requires_compaction` says of the chain of tests.
status_sound :
    (b : Budgets) (m : SourceMap) (p : Pick)
    → plan_status b m p ≡ requires_compaction
    → (verified m ≡ true)
      × (b.mode ≡ "active")
      × (b.trigger_tokens ≤ b.external_context_tokens + b.provider_history_tokens)
      × (is_some p.single_turn_exception ≡ false)
      × (b.summary_max_tokens + b.verbatim_max_tokens < conversation_capacity b)
unfolding plan_status
status_sound b m p e = ground (arith, eq_iff b.mode "active")

-- When a plan asks for compaction, the context, a full summary, the turns that are kept verbatim,
-- the reserved growth and the safety margin together stay within the operational limit, and some
-- growth is reserved. The reserved growth is what the limit leaves beside the context, a full
-- summary, the whole verbatim budget and the margin.
pub requires_compaction_fits :
    (b : Budgets) (m : SourceMap)
    → (build_history_partition_plan b m).status ≡ requires_compaction
    → let plan = build_history_partition_plan b m in
      (b.external_context_tokens + b.summary_max_tokens + plan.selected_estimated_tokens
          + plan.active_growth_tokens + b.safety_tokens
        ≤ b.operational_limit_tokens)
      × (0 < plan.active_growth_tokens)
      × (b.external_context_tokens + b.summary_max_tokens + b.verbatim_max_tokens
            + plan.active_growth_tokens + b.safety_tokens
          ≡ b.operational_limit_tokens)
unfolding build_history_partition_plan conversation_capacity active_growth
requires_compaction_fits b m e =
    let p : Picked b (reverse (turns_of m)) (pick b (reverse (turns_of m)) no_pick) = picked b m in
    let (v, mode, trigger, plain, room) =
      status_sound b m (pick b (reverse (turns_of m)) no_pick) e in
    let small : (pick b (reverse (turns_of m)) no_pick).selected_tokens ≤ b.verbatim_max_tokens =
      elim p.fits [
        | inl (small, _) ↦ small
        | inr (_, _, _, _, reported) ↦ absurd (ground (arith, plain, reported))
      ] in
    (omega arith, omega arith, omega arith)
