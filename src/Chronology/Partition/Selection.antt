-- ===== src/Chronology/Partition/Selection.antt =====
-- What the loop over the newest turns selects.
use llm_api_mind.Base.{
  ◌+◌, ◌≤◌, ◌<◌, Option, none, some, List, [], ◌∷◌, ◌++◌, Bool, true, false, ◌≡◌, refl, is_some,
  subst, leb→le, ltb→ge, ◌⊎◌, inl, inr, arith, sum_by-append, Bool-cases, leb, ltb, ◌||◌,
}
use mathlib.Core.List.{append_assoc}
use llm_api_mind.Chronology.SourceMap.{MappedTurn}
use llm_api_mind.Chronology.Partition.{
  Budgets, Pick, pick, no_pick, SingleTurnException, PhysicalWindowFailure, oversized, add_turn,
  is_nonempty, costs,
}

-- How a loop that has used up its list, or stopped, leaves its variables.
pub record Picked (b : Budgets) (turns : List MappedTurn) (p : Pick) : Type 0 where
  pub rest : List MappedTurn
  -- what was selected is the newest part of the list
  pub split : p.selected_reversed ++ rest ≡ turns
  pub total : p.selected_tokens ≡ costs p.selected_reversed
  -- the selection fits, or is a single turn that fits the model's window
  pub fits :
      (p.selected_tokens ≤ b.verbatim_max_tokens) × (p.single_turn_exception ≡ none)
      ⊎ ((u : MappedTurn) × (p.selected_reversed ≡ u ∷ [])
          × (b.verbatim_max_tokens < u.estimated_tokens)
          × (u.estimated_tokens ≤ b.model_window_tokens)
          × (is_some p.single_turn_exception ≡ true))
  -- the next older turn would not fit
  pub maximal :
      (u : MappedTurn) (us : List MappedTurn)
      → rest ≡ u ∷ us
      → b.verbatim_max_tokens < p.selected_tokens + u.estimated_tokens

head_eq : {u v : MappedTurn} {us vs : List MappedTurn} → u ∷ us ≡ v ∷ vs → u ≡ v
head_eq e = cc

abbrev pub Running : Budgets → Pick → Type 0
Running b p =
    (p.selected_tokens ≡ costs p.selected_reversed)
    × (p.selected_tokens ≤ b.verbatim_max_tokens)
    × (p.single_turn_exception ≡ none)

add_turn-Running :
    (b : Budgets) (u : MappedTurn) (p : Pick)
    → Running b p
    → p.selected_tokens + u.estimated_tokens ≤ b.verbatim_max_tokens
    → Running b (add_turn u p)
add_turn-Running b u p r h = (
  ground (
    arith,
    r.0,
    sum_by-append (λ (v : MappedTurn). v.estimated_tokens) p.selected_reversed (u ∷ []),
  ),
  h,
  r.2,
)

none_yet : (l : List MappedTurn) (c : Bool) → (is_nonempty l || c) ≡ false → l ≡ []
none_yet [] c h = refl
none_yet (u ∷ l) c h = cc

too_large :
    (l : List MappedTurn) (b : Budgets) (u : MappedTurn)
    → (is_nonempty l || leb u.estimated_tokens b.verbatim_max_tokens) ≡ false
    → b.verbatim_max_tokens < u.estimated_tokens
too_large [] b u h = ground arith
too_large (v ∷ l) b u h = cc

module _ (b : Budgets) (u : MappedTurn) (us : List MappedTurn) (p : Pick) (r : Running b p) where
  stopped-Picked :
      ltb b.verbatim_max_tokens (p.selected_tokens + u.estimated_tokens) ≡ true
      → Picked b (p.selected_reversed ++ u ∷ us) p
  stopped-Picked full = record {
    rest = u ∷ us;
    split = refl;
    total = r.0;
    fits = inl (r.1, r.2);
    maximal = λ v vs e. ground (arith, head_eq e);
  }

  oversized-Picked :
      p.selected_reversed ≡ []
      → b.verbatim_max_tokens < u.estimated_tokens
      → Picked b (p.selected_reversed ++ u ∷ us) (oversized b u p)
  unfolding oversized
  oversized-Picked empty large = elim (Bool-cases (leb u.estimated_tokens b.model_window_tokens)) [
    | inl fits ↦ rw fits (record {
      rest = us;
      split = append_assoc p.selected_reversed (u ∷ []) us;
      total = rw empty (omega arith);
      fits = inr (u, rw empty, large, leb→le _ _ fits, refl);
      maximal = λ v vs e. omega arith;
    })
    | inr exceeds ↦ rw exceeds (record {
      rest = u ∷ us;
      split = refl;
      total = r.0;
      fits = inl (r.1, r.2);
      maximal = λ v vs e. ground (arith, head_eq e);
    })
  ]

pub pick-Picked :
    (b : Budgets) (turns : List MappedTurn) (p : Pick)
    → Running b p
    → Picked b (p.selected_reversed ++ turns) (pick b turns p)
unfolding pick
pick-Picked b [] p (total, small, plain) = record {
  rest = [];
  split = refl;
  total = total;
  fits = inl (small, plain);
  maximal = λ u us e. cc;
}
pick-Picked b (u ∷ us) p (total, small, plain) =
    elim (Bool-cases
      (is_nonempty p.selected_reversed || leb u.estimated_tokens b.verbatim_max_tokens)) [
        | inl joins ↦
            elim (Bool-cases (ltb b.verbatim_max_tokens (p.selected_tokens + u.estimated_tokens))) [
              | inl full ↦ rw (joins, full) (stopped-Picked b u us p (total, small, plain) full)
              | inr room ↦
                  rw (joins, room)
                    (subst (λ l. Picked b l (pick b us (add_turn u p)))
                      (append_assoc p.selected_reversed (u ∷ []) us)
                      (pick-Picked b us (add_turn u p) (
                        add_turn-Running b u p (total, small, plain)
                          (ltb→ge b.verbatim_max_tokens (p.selected_tokens + u.estimated_tokens)
                            room))))
            ]
        | inr alone ↦ rw alone (
            oversized-Picked b u us p (total, small, plain) (none_yet p.selected_reversed _ alone)
              (too_large p.selected_reversed b u alone))
      ]

-- A loop that has selected something reports no oversized turn any more.
pick_quiet :
    (b : Budgets) (turns : List MappedTurn) (p : Pick)
    → is_nonempty p.selected_reversed ≡ true
    → ((pick b turns p).single_turn_exception ≡ p.single_turn_exception)
      × ((pick b turns p).physical_window_failure ≡ p.physical_window_failure)
unfolding pick
pick_quiet b [] p h = (refl, refl)
pick_quiet b (u ∷ us) p h =
    elim (Bool-cases (ltb b.verbatim_max_tokens (p.selected_tokens + u.estimated_tokens))) [
      | inl full ↦ rw (h, full) (refl, refl)
      | inr room ↦ rw (h, room) (pick_quiet b us (add_turn u p) (nonempty p.selected_reversed u))
    ]
  where
    nonempty : (l : List MappedTurn) (u : MappedTurn) → is_nonempty (l ++ u ∷ []) ≡ true
    nonempty [] u = refl
    nonempty (v ∷ l) u = refl

-- What becomes of the newest turn: within the verbatim budget nothing is reported; above it the
-- turn alone is kept where it fits the model's window, and nothing is kept where it does not.
pub record Newest (b : Budgets) (u : MappedTurn) (kept : List MappedTurn)
    (exception : Option SingleTurnException) (failure : Option PhysicalWindowFailure) : Type 0 where
  pub small : u.estimated_tokens ≤ b.verbatim_max_tokens → (exception ≡ none) × (failure ≡ none)
  pub large :
      b.verbatim_max_tokens < u.estimated_tokens
      → u.estimated_tokens ≤ b.model_window_tokens
      → (kept ≡ u ∷ [])
        × (failure ≡ none)
        × (exception
            ≡ some (record {
              turn_id = u.turn_id;
              estimated_tokens = u.estimated_tokens;
              verbatim_budget_tokens = b.verbatim_max_tokens;
              physical_model_window_tokens = b.model_window_tokens;
            }))
  pub too_large :
      b.verbatim_max_tokens < u.estimated_tokens
      → b.model_window_tokens < u.estimated_tokens
      → (kept ≡ [])
        × (exception ≡ none)
        × (failure
            ≡ some (record {
              turn_id = u.turn_id;
              estimated_tokens = u.estimated_tokens;
              physical_model_window_tokens = b.model_window_tokens;
            }))

module _ (b : Budgets) (u : MappedTurn) (us : List MappedTurn) where
  starts_small :
      u.estimated_tokens ≤ b.verbatim_max_tokens
      → pick b (u ∷ us) no_pick ≡ pick b us (add_turn u no_pick)
  unfolding pick
  starts_small h = ground (arith, h)

  starts_large :
      b.verbatim_max_tokens < u.estimated_tokens → pick b (u ∷ us) no_pick ≡ oversized b u no_pick
  unfolding pick
  starts_large h = ground (arith, h)

  fits_window :
      u.estimated_tokens ≤ b.model_window_tokens
      → leb u.estimated_tokens b.model_window_tokens ≡ true
  fits_window w = ground arith

  over_window :
      b.model_window_tokens < u.estimated_tokens
      → leb u.estimated_tokens b.model_window_tokens ≡ false
  over_window w = ground arith

  pub pick-Newest :
      let p = pick b (u ∷ us) no_pick in
      Newest b u p.selected_reversed p.single_turn_exception p.physical_window_failure
  unfolding oversized
  pick-Newest = record {
    small = λ h. rw (starts_small h) (pick_quiet b us (add_turn u no_pick) refl);
    large = λ h w. rw (starts_large h, oversized, fits_window w) (refl, refl, refl);
    too_large = λ h w. rw (starts_large h, oversized, over_window w) (refl, refl, refl);
  }
