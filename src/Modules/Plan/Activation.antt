-- ===== src/Modules/Plan/Activation.antt =====
-- The active modules of a plan are closed under their required dependencies.
use llm_api_mind.Base.{
  suc, String, none, some, List, [], ◌∷◌, Bool, true, false, ◌≡◌, All-map, refl, sym, ap, ◌∙◌,
  subst, arith, All, if◌then◌else◌, contains, ◌>>=◌,
}
use llm_api_mind.Base.{length}
use llm_api_mind.Base.Sets.{once, All-contains}
use llm_api_mind.Base.Sorting.{sorted}
use llm_api_mind.Modules.Semver.{Semver, parse_semver}
use llm_api_mind.Modules.Manifest.{ModuleDependency, AgenticModuleManifest, accepts}
use llm_api_mind.Modules.Ledger.{Ledger, is_blocked}
use llm_api_mind.Modules.Graph.{edges, duplicates, cycle_members}
use llm_api_mind.Modules.Plan.{
  Manifests, by_id, is_installed, is_enabled, is_eligible, required_ids, Request, graph_of,
  manifest_order, ActivationStatus, active, ModuleActivationPlan, module_state, checked_ledger,
  plan_of, propagate, build_activation_plan, block_all, check_manifests, check_modes, unknown_tag,
}
use llm_api_mind.Modules.Plan.Blocking.{
  Grows, block_all-Grows, Met, AllMet, Compatible, check_manifests-Compatible,
}
use llm_api_mind.Modules.Plan.Modes.{enabled_or_free, check_modes-Grows, check_modes-All}
use llm_api_mind.Modules.Graph.Ends.{cycle_members_total}
use llm_api_mind.Modules.Plan.Ends.{propagate_total}
use llm_api_mind.Modules.Plan.Propagation.{Settled, propagate-Settled, first_blocked-none}
use llm_api_mind.Modules.Plan.{first_blocked}
use llm_api_mind.Modules.Plan.Closure.{
  All-by_id, edges-required_graph, edges-All, IsEdge, edges_of, status_of, status_of-map,
  active_free, free_active, contains-once, installed_listed, enabled_eligible,
}

-- The required dependency is installed in a version that it accepts, and active in the plan.
pub record Served (ms : Manifests) (plan : ModuleActivationPlan) (d : ModuleDependency)
    : Type 0 where
  pub target : AgenticModuleManifest
  pub installed : by_id ms d.module_id ≡ some target
  pub accepted : accepts d target.module_version ≡ true
  pub is_active : status_of plan.states d.module_id ≡ some active

module _ (r : Request) (core : Semver) (cyclic : List String) where
  abbrev tags : List String
  tags = once [] r.known_mode_tags

  abbrev CompatibleIn : AgenticModuleManifest → Type 0
  CompatibleIn = Compatible r.manifests tags r.available_contracts core

  abbrev is_selected : String → Bool
  is_selected = is_eligible r.manifests r.active_mode_tag

  abbrev before_manifests : Ledger
  before_manifests =
      let l1 =
        block_all (record { blocked = []; diagnostics = [] })
          (sorted (once [] (duplicates [] (manifest_order r.manifests)))) "module.duplicate_id" in
      if contains tags r.active_mode_tag then l1 else unknown_tag l1

  abbrev after_manifests : Ledger
  after_manifests =
      check_manifests r.manifests tags r.available_contracts core r.manifests before_manifests

  checked-Compatible :
      All
        (λ m.
          is_blocked (checked_ledger r core cyclic).blocked m.module_id ≡ false → CompatibleIn m)
        r.manifests
  unfolding checked_ledger
  checked-Compatible =
      let l4 : Ledger = block_all after_manifests (sorted cyclic) "dependency.required_cycle" in
      All-map (λ m. is_blocked after_manifests.blocked m.module_id ≡ false → CompatibleIn m)
        (λ m.
          is_blocked (check_modes r.manifests r.active_mode_tag r.manifests l4).blocked m.module_id
            ≡ false
          → CompatibleIn m)
        (λ m f h. f (
          block_all-Grows after_manifests (sorted cyclic) "dependency.required_cycle" m.module_id
            (check_modes-Grows r.manifests r.active_mode_tag r.manifests l4 m.module_id h)))
        r.manifests
        (check_manifests-Compatible r.manifests tags r.available_contracts core r.manifests
          before_manifests)

  checked_modes :
      All
        (λ m.
          is_selected m.module_id ≡ true
          → is_blocked (checked_ledger r core cyclic).blocked m.module_id ≡ false
          → All (λ d. enabled_or_free r.manifests r.active_mode_tag d ≡ true) m.dependencies)
        r.manifests
  unfolding checked_ledger
  checked_modes =
      check_modes-All r.manifests r.active_mode_tag r.manifests
        (block_all after_manifests (sorted cyclic) "dependency.required_cycle")

-- What a plan promises of the manifest of an active module.
pub record Runs (r : Request) (core : Semver) (plan : ModuleActivationPlan)
    (m : AgenticModuleManifest) : Type 0 where
  pub compatible : Compatible r.manifests (once [] r.known_mode_tags) r.available_contracts core m
  pub served : All (λ d. d.optional ≡ false → Served r.manifests plan d) m.dependencies

status_inj : {s t : ActivationStatus} → some s ≡ some t → s ≡ t
status_inj e = cc

module _ (r : Request) (k : Ledger) where
  abbrev known : Bool
  known = contains (once [] r.known_mode_tags) r.active_mode_tag

  abbrev selected : String → Bool
  selected = is_eligible r.manifests r.active_mode_tag

  -- the status that the plan shows for an installed module
  status-plan_of :
      (i : String)
      → is_installed r.manifests i ≡ true
      → status_of (plan_of r k).states i ≡ some (module_state known selected k.blocked i).status
  unfolding plan_of
  status-plan_of i h =
      status_of-map known selected k.blocked (once [] (manifest_order r.manifests)) i
      ∙ rw (contains-once [] (manifest_order r.manifests) i, installed_listed r.manifests i h) refl

  serve_one :
      (d : ModuleDependency) (l : List String)
      → known ≡ true
      → first_blocked k.blocked l ≡ none
      → Met r.manifests d
      → enabled_or_free r.manifests r.active_mode_tag d ≡ true
      → (is_installed r.manifests d.module_id ≡ true → contains l d.module_id ≡ true)
      → d.optional ≡ false
      → Served r.manifests (plan_of r k) d
  serve_one d l on free met mode edge o =
      let here : is_installed r.manifests d.module_id ≡ true = rw met.installed refl in
      let open_ : is_blocked k.blocked d.module_id ≡ false =
        first_blocked-none k.blocked l d.module_id free (edge here) in
      let tagged : is_enabled r.active_mode_tag (by_id r.manifests d.module_id) ≡ true =
        ground (arith, mode, here, o) in
      record {
        target = met.target;
        installed = met.installed;
        accepted = met.accepted;
        is_active =
            status-plan_of d.module_id here
            ∙ ap some (
                free_active known selected k.blocked d.module_id open_
                  (enabled_eligible r.manifests r.active_mode_tag d.module_id tagged) on);
      }

  serve :
      (ds : List ModuleDependency) (l : List String)
      → known ≡ true
      → first_blocked k.blocked l ≡ none
      → AllMet r.manifests ds
      → All (λ d. enabled_or_free r.manifests r.active_mode_tag d ≡ true) ds
      → All (IsEdge r.manifests l) ds
      → All (λ d. d.optional ≡ false → Served r.manifests (plan_of r k) d) ds
  serve [] l on free met modes edge = tt
  serve (d ∷ ds) l on free met modes edge = (
    (λ o. serve_one d l on free (met.0 o) modes.0 (edge.0 o) o),
    serve ds l on free met.1 modes.1 edge.1,
  )

  -- A module that the final ledger lets be active, where the ledger grew from the checks.
  runs :
      (core : Semver) (cyclic : List String) (i : String) (m : AgenticModuleManifest)
      → Grows (checked_ledger r core cyclic) k
      → All (Settled selected (graph_of r) k) (manifest_order r.manifests)
      → by_id r.manifests i ≡ some m
      → status_of (plan_of r k).states i ≡ some active
      → Runs r core (plan_of r k) m
  runs core cyclic i m grows settled got shown =
      let here : is_installed r.manifests i ≡ true = rw got refl in
      let (free, chosen, on) =
        active_free known selected k.blocked i (status_inj (sym (status-plan_of i here) ∙ shown)) in
      let (compatible, id) =
        All-by_id
          (λ n.
            is_blocked (checked_ledger r core cyclic).blocked n.module_id ≡ false
            → CompatibleIn r core cyclic n)
          r.manifests i m (checked-Compatible r core cyclic) got in
      let (modes, _) =
        All-by_id
          (λ n.
            selected n.module_id ≡ true
            → is_blocked (checked_ledger r core cyclic).blocked n.module_id ≡ false
            → All (λ d. enabled_or_free r.manifests r.active_mode_tag d ≡ true) n.dependencies)
          r.manifests i m (checked_modes r core cyclic) got in
      let unblocked : is_blocked (checked_ledger r core cyclic).blocked m.module_id ≡ false =
        grows m.module_id (subst (λ j. is_blocked k.blocked j ≡ false) (sym id) free) in
      let own : edges (graph_of r) i ≡ required_ids r.manifests m.dependencies =
        edges-required_graph r.manifests r.manifests [] i ∙ ap (edges_of r.manifests [] i) got in
      let deps_free : first_blocked k.blocked (required_ids r.manifests m.dependencies) ≡ none =
        subst (λ l. first_blocked k.blocked l ≡ none) own
          (All-contains (Settled selected (graph_of r) k) (manifest_order r.manifests) i settled
            (installed_listed r.manifests i here) chosen free) in
      record {
        compatible = compatible unblocked;
        served =
            serve m.dependencies (required_ids r.manifests m.dependencies) on deps_free
              (compatible unblocked).dependencies
              (modes (subst (λ j. selected j ≡ true) (sym id) chosen) unblocked)
              (edges-All r.manifests m.dependencies (required_ids r.manifests m.dependencies)
                (λ x h. h));
      }

-- Every module that the plan shows as active runs, by the manifest that counts for its id.
pub record IsClosed (r : Request) (core : Semver) (plan : ModuleActivationPlan) : Type 0 where
  pub active_runs :
      (i : String) (m : AgenticModuleManifest)
      → by_id r.manifests i ≡ some m
      → status_of plan.states i ≡ some active
      → Runs r core plan m

built :
    (r : Request) {core : Semver} {cyclic : List String} {k : Ledger}
    → parse_semver r.core_version ≡ some core
    → cycle_members (graph_of r) ≡ some cyclic
    → propagate
        (suc (length r.manifests))
        (is_eligible r.manifests r.active_mode_tag)
        (graph_of r)
        (manifest_order r.manifests)
        (checked_ledger r core cyclic)
      ≡ some k
    → build_activation_plan r ≡ some (plan_of r k)
unfolding build_activation_plan
built r parsed found ended = rw (parsed, found) (ap (λ o. o >>= λ l. some (plan_of r l)) ended)

-- Wherever the core version is valid, a plan is returned: neither loop runs out of fuel. In that
-- plan a module shown as active is compatible, by the manifest that counts for its id (its mode
-- tags are known, the core's version lies in its range, and the contracts it requires are
-- available), and each of its required dependencies is installed, in a version that it accepts, and
-- active as well.
pub activation-IsClosed :
    (r : Request) (core : Semver)
    → parse_semver r.core_version ≡ some core
    → (plan : ModuleActivationPlan) × (build_activation_plan r ≡ some plan) × IsClosed r core plan
activation-IsClosed r core parsed =
    let eligible = is_eligible r.manifests r.active_mode_tag in
    let (cyclic, found) = cycle_members_total (graph_of r) in
    let (k, ended) =
      propagate_total eligible (graph_of r) r.manifests (checked_ledger r core cyclic) in
    let (grows, settled) =
      propagate-Settled eligible (graph_of r) (suc (length r.manifests))
        (manifest_order r.manifests) (checked_ledger r core cyclic) k ended in
    (
      plan_of r k,
      built r parsed found ended,
      record { active_runs = λ i m. runs r k core cyclic i m grows settled },
    )
