-- ===== src/Modules/Plan.antt =====
-- `build_activation_plan` of backend/app/agentic_modules/validation.py.
pub mod Blocking
pub mod Modes
pub mod Propagation
pub mod Ends
pub mod Closure
pub mod Activation
use llm_api_mind.Base.{
  ℕ, zero, suc, String, Option, none, some, List, [], ◌∷◌, map, Bool, true, false, ◌&&◌, ◌||◌, ◌==◌,
  not, all, filter, contains, length, if◌then◌else◌, ◌>>=◌, is_some,
}
use llm_api_mind.Base.Sets.{once}
use llm_api_mind.Base.Sorting.{sorted}
use llm_api_mind.Modules.Semver.{Semver, parse_semver}
use llm_api_mind.Modules.Manifest.{ModuleDependency, AgenticModuleManifest, supports, accepts}
use llm_api_mind.Modules.Ledger.{
  Severity, error, warning, ModuleDiagnostic, Blocked, Ledger, is_blocked, reasons, report, block,
  add_reason,
}
use llm_api_mind.Modules.Graph.{
  duplicates, Graph, edges, put_node, cycle_members, topological_order,
}

pub data ActivationStatus : Type 0 where
  active inactive blocked : ActivationStatus

pub record ModuleActivationState : Type 0 where
  pub module_id : String
  pub status : ActivationStatus
  pub reasons : List String

pub record ModuleActivationPlan : Type 0 where
  pub core_version : String
  pub available_contracts : List (String × String)
  pub active_mode_tag : String
  pub known_mode_tags : List String
  pub registry_valid : Bool
  pub ordered_active_modules : List String
  pub states : List ModuleActivationState
  pub diagnostics : List ModuleDiagnostic

abbrev pub Manifests : Type 0
Manifests = List AgenticModuleManifest

unfoldable pub later_or :
    Option AgenticModuleManifest → String → AgenticModuleManifest → Option AgenticModuleManifest
later_or (some n) i m = some n
later_or none i m = if i == m.module_id then some m else none

-- `by_id.get(module_id)`: of several manifests with one id the last counts
unfoldable pub by_id : Manifests → String → Option AgenticModuleManifest
unfolding later_or
by_id [] i = none
by_id (m ∷ ms) i = later_or (by_id ms i) i m

abbrev pub is_installed : Manifests → String → Bool
is_installed ms i = is_some (by_id ms i)

unfoldable pub block_all : Ledger → List String → String → Ledger
block_all l [] code = l
block_all l (i ∷ ids) code = block_all (block l i code none) ids code

-- `contracts.get(contract_name)`
unfoldable pub contract : List (String × String) → String → Option String
contract [] name = none
contract ((n, v) ∷ contracts) name = if name == n then some v else contract contracts name

abbrev pub is_version : Option String → String → Bool
is_version none v = false
is_version (some w) v = w == v

unfoldable pub check_contracts :
    List (String × String) → String → List (String × String) → Ledger → Ledger
unfolding contract
check_contracts contracts i [] l = l
check_contracts contracts i ((name, required) ∷ rest) l = check_contracts contracts i rest (
    if is_version (contract contracts name) required
    then l
    else block l i "module.contract_incompatible" none)

abbrev pub severity : Bool → Severity
severity optional = if optional then warning else error

-- a diagnostic, and for a required dependency the reason `code`, which is added each time
unfoldable pub note_dependency :
    Ledger → String → ModuleDependency → (optional required : String) → Ledger
note_dependency l i d optional required =
    let l' = report l (record {
      severity = severity d.optional;
      code = if d.optional then optional else required;
      module_id = some i;
      dependency_id = some d.module_id;
    }) in
    if d.optional then l' else record l' { blocked = add_reason l'.blocked i required }

unfoldable pub check_dependency : Manifests → String → ModuleDependency → Ledger → Ledger
unfolding note_dependency
check_dependency ms i d l = elim (by_id ms d.module_id) [
  | none ↦ note_dependency l i d "dependency.missing_optional" "dependency.missing_required"
  | some target ↦
      if accepts d target.module_version
      then l
      else note_dependency l i d "dependency.optional_version_incompatible"
          "dependency.required_version_incompatible"
]

unfoldable pub check_dependencies : Manifests → String → List ModuleDependency → Ledger → Ledger
check_dependencies ms i [] l = l
check_dependencies ms i (d ∷ ds) l = check_dependencies ms i ds (check_dependency ms i d l)

-- the body of the first loop over the manifests
unfoldable pub check_manifest :
    Manifests
    → (known_tags : List String) → List (String × String)
    → Semver
    → AgenticModuleManifest
    → Ledger
    → Ledger
check_manifest ms known_tags contracts core m l =
    let l1 =
      if all (contains known_tags) m.mode_tags
      then l
      else block l m.module_id "module.unknown_mode_tag" none in
    let l2 =
      if supports m.core_compatibility core
      then l1
      else block l1 m.module_id "module.core_incompatible" none in
    let l3 = check_contracts contracts m.module_id m.core_compatibility.required_contracts l2 in
    check_dependencies ms m.module_id m.dependencies l3

unfoldable pub check_manifests :
    Manifests
    → (known_tags : List String) → List (String × String)
    → Semver
    → Manifests
    → Ledger
    → Ledger
check_manifests all_of known_tags contracts core [] l = l
check_manifests all_of known_tags contracts core (m ∷ ms) l =
    check_manifests all_of known_tags contracts core ms
      (check_manifest all_of known_tags contracts core m l)

-- the required dependencies of a manifest that are installed
unfoldable pub required_ids : Manifests → List ModuleDependency → List String
required_ids ms [] = []
required_ids ms (d ∷ ds) =
    let rest = required_ids ms ds in
    if not d.optional && is_installed ms d.module_id then d.module_id ∷ rest else rest

-- `required_graph`
unfoldable pub required_graph : Manifests → Manifests → Graph → Graph
required_graph all_of [] g = g
required_graph all_of (m ∷ ms) g =
    required_graph all_of ms (put_node g m.module_id (required_ids all_of m.dependencies))

abbrev pub is_enabled : String → Option AgenticModuleManifest → Bool
is_enabled tag none = false
is_enabled tag (some m) = contains m.mode_tags tag

-- `module_id in eligible`: some manifest of this id has the tag
unfoldable pub is_eligible : Manifests → String → String → Bool
is_eligible [] tag i = false
is_eligible (m ∷ ms) tag i = i == m.module_id && contains m.mode_tags tag || is_eligible ms tag i

-- the loop over the dependencies of an eligible module
unfoldable pub check_enabled : Manifests → String → String → List ModuleDependency → Ledger → Ledger
check_enabled ms tag i [] l = l
check_enabled ms tag i (d ∷ ds) l = check_enabled ms tag i ds (
    if d.optional || not (is_installed ms d.module_id) || is_enabled tag (by_id ms d.module_id)
    then l
    else block l i "dependency.inactive_for_mode" (some d.module_id))

unfoldable pub check_modes : Manifests → String → Manifests → Ledger → Ledger
unfolding check_enabled
check_modes all_of tag [] l = l
check_modes all_of tag (m ∷ ms) l = check_modes all_of tag ms (
    if is_eligible all_of tag m.module_id
    then check_enabled all_of tag m.module_id m.dependencies l
    else l)

-- the first blocked dependency, where the inner loop breaks
unfoldable pub first_blocked : Blocked → List String → Option String
first_blocked b [] = none
first_blocked b (d ∷ deps) =
    let rest = first_blocked b deps in if is_blocked b d then some d else rest

-- one turn of the `for` loop in `while changed`, with `changed`
unfoldable pub propagate_one : (String → Bool) → Graph → String → Ledger × Bool → Ledger × Bool
unfolding first_blocked
propagate_one eligible g i (l, changed) =
    if not (eligible i) || is_blocked l.blocked i
    then (l, changed)
    else elim (first_blocked l.blocked (edges g i)) [
      | none ↦ (l, changed)
      | some d ↦ (block l i "dependency.required_blocked" (some d), true)
    ]

unfoldable pub propagate_round :
    (String → Bool) → Graph → List String → Ledger × Bool → Ledger × Bool
unfolding propagate_one
propagate_round eligible g [] s = s
propagate_round eligible g (i ∷ ids) s =
    propagate_round eligible g ids (propagate_one eligible g i s)

-- `while changed`; a round that changes something blocks one more module, and `none` means that the
-- fuel ran out
unfoldable pub propagate : ℕ → (String → Bool) → Graph → List String → Ledger → Option Ledger
unfolding propagate_round
propagate zero eligible g ids l = none
propagate (suc fuel) eligible g ids l =
    let (l', changed) = propagate_round eligible g ids (l, false) in
    let rest = propagate fuel eligible g ids l' in if changed then rest else some l'

unfoldable pub module_state :
    (known : Bool) → (String → Bool) → Blocked → String → ModuleActivationState
unfolding once
module_state known eligible b i =
    if is_blocked b i
    then record { module_id = i; status = blocked; reasons = once [] (reasons b i) }
    else if eligible i && known
    then record { module_id = i; status = active; reasons = [] }
    else record { module_id = i; status = inactive; reasons = "mode.not_selected" ∷ [] }

abbrev pub is_error : ModuleDiagnostic → Bool
is_error d = elim d.severity [ error ↦ true | warning ↦ false ]

-- what the function takes
pub record Request : Type 0 where
  pub manifests : Manifests
  pub core_version : String
  pub active_mode_tag : String
  pub known_mode_tags : List String
  pub available_contracts : List (String × String)

abbrev pub manifest_order : Manifests → List String
manifest_order = map (λ m. m.module_id)

abbrev pub unknown_tag : Ledger → Ledger
unknown_tag l = report l (record {
  severity = error;
  code = "mode.unknown_active_tag";
  module_id = none;
  dependency_id = none;
})

-- every check up to the cycles, in the order of the source
unfoldable pub checked_ledger : Request → Semver → List String → Ledger
unfolding block_all check_manifests check_modes once duplicates required_graph
checked_ledger r core cyclic =
    let known_tags = once [] r.known_mode_tags in
    let ids = manifest_order r.manifests in
    let l0 : Ledger = record { blocked = []; diagnostics = [] } in
    let l1 = block_all l0 (sorted (once [] (duplicates [] ids))) "module.duplicate_id" in
    let l2 = if contains known_tags r.active_mode_tag then l1 else unknown_tag l1 in
    let l3 = check_manifests r.manifests known_tags r.available_contracts core r.manifests l2 in
    let l4 = block_all l3 (sorted cyclic) "dependency.required_cycle" in
    check_modes r.manifests r.active_mode_tag r.manifests l4

unfoldable pub active_modules : Request → Blocked → List String
active_modules r b =
    filter (λ i. is_eligible r.manifests r.active_mode_tag i && not (is_blocked b i))
      (manifest_order r.manifests)

abbrev pub graph_of : Request → Graph
graph_of r = required_graph r.manifests r.manifests []

unfoldable pub plan_of : Request → Ledger → ModuleActivationPlan
unfolding active_modules module_state once
plan_of r l =
    let known_tags = once [] r.known_mode_tags in
    let ids = manifest_order r.manifests in
    record {
      core_version = r.core_version;
      available_contracts = r.available_contracts;
      active_mode_tag = r.active_mode_tag;
      known_mode_tags = known_tags;
      registry_valid = all (λ d. not (is_error d)) l.diagnostics;
      ordered_active_modules =
          if contains known_tags r.active_mode_tag
          then topological_order (active_modules r l.blocked) (graph_of r) ids
          else [];
      states =
          map
            (module_state (contains known_tags r.active_mode_tag)
              (is_eligible r.manifests r.active_mode_tag) l.blocked)
            (once [] ids);
      diagnostics = l.diagnostics;
    }

-- `build_activation_plan`; `none` is the `ValueError` of `validate_semver`, or a loop that ran out of
-- fuel
unfoldable pub build_activation_plan : Request → Option ModuleActivationPlan
unfolding checked_ledger propagate plan_of
build_activation_plan r = do
  core ← parse_semver r.core_version
  cyclic ← cycle_members (graph_of r)
  l ←
      propagate (suc (length r.manifests)) (is_eligible r.manifests r.active_mode_tag) (graph_of r)
        (manifest_order r.manifests) (checked_ledger r core cyclic)
  some (plan_of r l)
