-- ===== src/Modules/Examples.antt =====
-- The activation of the sample modules, and the cycles of a small graph.
use llm_api_mind.Base.{some, [], ◌∷◌, ◌≡◌, refl}
use llm_api_mind.Base.Sets.{once}
use llm_api_mind.Base.Sorting.{sort_by, insert_by, sorted}
use llm_api_mind.Modules.Semver.{parse_semver, compare_semver}
use llm_api_mind.Modules.Manifest.{supports, accepts, below_maximum}
use llm_api_mind.Modules.Ledger.{is_blocked}
use llm_api_mind.Modules.Graph.{
  Graph, has_node, edges, put_node, enter, leave, close_cycle, visit_edges, visit, visit_nodes,
  cycle_members, order_index, dependents, release, drain, topological_order,
}
use llm_api_mind.Modules.Plan.{
  later_or, by_id, contract, check_contracts, check_dependency, check_dependencies, check_manifest,
  check_manifests, required_ids, required_graph, is_eligible, active_modules, plan_of,
  build_activation_plan, active, ModuleActivationPlan,
}
use llm_api_mind.Modules.Plan.Closure.{status_of}
use llm_api_mind.Modules.Plan.Activation.{IsClosed, activation-IsClosed}
use llm_api_mind.Modules.Samples.{request, version, nothing_blocked}

core_parsed : parse_semver request.core_version ≡ some (version 2)
unfolding parse_semver
core_parsed = refl

activation-IsClosed_example :
    (plan : ModuleActivationPlan) × (build_activation_plan request ≡ some plan)
    × IsClosed request (version 2) plan
activation-IsClosed_example = activation-IsClosed request (version 2) core_parsed

-- The plan of the sample request shows a module with a required dependency as active.
plan_built : build_activation_plan request ≡ some (plan_of request nothing_blocked)
unfolding build_activation_plan edges required_graph required_ids by_id later_or supports accepts
    below_maximum is_eligible compare_semver check_dependency check_dependencies check_manifest
    check_manifests check_contracts contract order_index parse_semver cycle_members put_node
    is_blocked sorted
plan_built = refl

focus_shown : status_of (plan_of request nothing_blocked).states "focus" ≡ some active
unfolding plan_of is_eligible is_blocked once
focus_shown = refl

-- Dependencies come first.
order_test : (plan_of request nothing_blocked).ordered_active_modules ≡ "memory" ∷ "focus" ∷ []
unfolding plan_of active_modules is_eligible is_blocked once topological_order drain release
    dependents edges required_graph required_ids by_id later_or put_node order_index sort_by
    insert_by
order_test = refl

-- a and b require each other, and c is on the cycle a, c, b
abbrev triangle : Graph
triangle = ("a", "b" ∷ "c" ∷ []) ∷ ("b", "a" ∷ []) ∷ ("c", "b" ∷ []) ∷ []

-- `_cycle_members` does not report c.
triangle_test : cycle_members triangle ≡ some ("a" ∷ "b" ∷ [])
unfolding cycle_members visit_nodes visit visit_edges enter leave close_cycle has_node edges
triangle_test = refl
