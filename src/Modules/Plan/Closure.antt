-- ===== src/Modules/Plan/Closure.antt =====
-- Facts on the lookups of `build_activation_plan`: manifests, required edges, and states.
use llm_api_mind.Base.{
  String, Option, none, some, List, [], ◌∷◌, map, Bool, true, false, ◌||◌, ◌&&◌, not, ◌==◌, ◌≡◌,
  refl, sym, ◌∙◌, subst, arith, All, Bool-cases, inl, inr, if◌then◌else◌, contains, eq_iff, eq_refl,
}
use llm_api_mind.Base.Sets.{once}
use llm_api_mind.Modules.Manifest.{ModuleDependency, AgenticModuleManifest}
use llm_api_mind.Modules.Ledger.{Blocked, is_blocked}
use llm_api_mind.Modules.Graph.{Graph, edges, put_node}
use llm_api_mind.Modules.Plan.{
  Manifests, later_or, by_id, is_installed, is_enabled, is_eligible, required_ids, required_graph,
  manifest_order, ActivationStatus, active, ModuleActivationState, module_state,
}

manifest_inj : {m n : AgenticModuleManifest} → some m ≡ some n → m ≡ n
manifest_inj e = cc

no_manifest : {m : AgenticModuleManifest} → none ≡ some m → ⊥
no_manifest e = cc

module _ (P : AgenticModuleManifest → Type 0) where
  from_later :
      (o : Option AgenticModuleManifest) (i : String) (n m : AgenticModuleManifest)
      → (o ≡ some m → P m × (m.module_id ≡ i))
      → P n
      → later_or o i n ≡ some m
      → P m × (m.module_id ≡ i)
  unfolding later_or
  from_later (some k) i n m rest p e = rest e
  from_later none i n m rest p e = elim (Bool-cases (i == n.module_id)) [
    | inl same ↦
        let own : n ≡ m =
          manifest_inj (subst (λ b. (if b then some n else none) ≡ some m) same e) in
        subst (λ k. P k × (k.module_id ≡ i)) own (p, sym ((eq_iff i n.module_id).0 same))
    | inr other ↦ absurd (no_manifest (subst (λ b. (if b then some n else none) ≡ some m) other e))
  ]

  -- The manifest that counts for an id is one of the manifests, and has the id.
  pub All-by_id :
      (ms : Manifests) (i : String) (m : AgenticModuleManifest)
      → All P ms
      → by_id ms i ≡ some m
      → P m × (m.module_id ≡ i)
  unfolding by_id
  All-by_id [] i m ps e = cc
  All-by_id (n ∷ ms) i m ps e = from_later (by_id ms i) i n m (All-by_id ms i m ps.1) ps.0 e

edges-put_node :
    (g : Graph) (i j : String) (deps : List String)
    → edges (put_node g i deps) j ≡ (if j == i then deps else edges g j)
unfolding edges put_node
edges-put_node [] i j deps = refl
edges-put_node ((k, old) ∷ g) i j deps =
    ground (arith, edges-put_node g i j deps, eq_iff i k, eq_iff j k, eq_iff j i)

-- the edges of the module of a manifest
abbrev pub edges_of : Manifests → Graph → String → Option AgenticModuleManifest → List String
edges_of ms g i none = edges g i
edges_of ms g i (some m) = required_ids ms m.dependencies

edges_of-put_node :
    (all_of : Manifests) (g : Graph) (i : String) (m : AgenticModuleManifest)
    (o : Option AgenticModuleManifest)
    → edges_of all_of (put_node g m.module_id (required_ids all_of m.dependencies)) i o
      ≡ edges_of all_of g i (later_or o i m)
unfolding later_or
edges_of-put_node all_of g i m (some k) = refl
edges_of-put_node all_of g i m none =
    edges-put_node g m.module_id i (required_ids all_of m.dependencies)
    ∙ elim (Bool-cases (i == m.module_id)) [ inl e ↦ rw e refl | inr e ↦ rw e refl ]

pub edges-required_graph :
    (all_of ms : Manifests) (g : Graph) (i : String)
    → edges (required_graph all_of ms g) i ≡ edges_of all_of g i (by_id ms i)
unfolding required_graph by_id
edges-required_graph all_of [] g i = refl
edges-required_graph all_of (m ∷ ms) g i =
    edges-required_graph all_of ms (put_node g m.module_id (required_ids all_of m.dependencies)) i
    ∙ edges_of-put_node all_of g i m (by_id ms i)

-- a required dependency that is installed is an edge
abbrev pub IsEdge : Manifests → List String → ModuleDependency → Type 0
IsEdge ms l d =
    d.optional ≡ false → is_installed ms d.module_id ≡ true → contains l d.module_id ≡ true

pub edges-All :
    (ms : Manifests) (ds : List ModuleDependency) (l : List String)
    → ((x : String) → contains (required_ids ms ds) x ≡ true → contains l x ≡ true)
    → All (IsEdge ms l) ds
unfolding required_ids
edges-All ms [] l f = tt
edges-All ms (d ∷ ds) l f = (
  (λ o i. f d.module_id (ground (arith, o, i, eq_refl d.module_id))),
  edges-All ms ds l (λ x h. f x (ground (arith, h))),
)

-- the status of a module in a list of states
abbrev pub status_of : List ModuleActivationState → String → Option ActivationStatus
status_of [] i = none
status_of (s ∷ states) i = if i == s.module_id then some s.status else status_of states i

module _ (known : Bool) (eligible : String → Bool) (b : Blocked) where
  state_id : (i : String) → (module_state known eligible b i).module_id ≡ i
  unfolding module_state
  state_id i = ground arith

  pub status_of-map :
      (ids : List String) (i : String)
      → status_of (map (module_state known eligible b) ids) i
        ≡ (if contains ids i then some (module_state known eligible b i).status else none)
  status_of-map [] i = refl
  status_of-map (j ∷ ids) i = ground (arith, status_of-map ids i, state_id j, eq_iff i j)

  pub active_free :
      (i : String)
      → (module_state known eligible b i).status ≡ active
      → (is_blocked b i ≡ false) × (eligible i ≡ true) × (known ≡ true)
  unfolding module_state
  active_free i h = ground (arith, h)

  pub free_active :
      (i : String)
      → is_blocked b i ≡ false
      → eligible i ≡ true
      → known ≡ true
      → (module_state known eligible b i).status ≡ active
  unfolding module_state
  free_active i h e k = ground (arith, h, e, k)

pub contains-once :
    (seen ids : List String) (i : String)
    → contains (once seen ids) i ≡ (contains ids i && not (contains seen i))
unfolding once
contains-once seen [] i = refl
contains-once seen (j ∷ ids) i =
    ground (arith, contains-once seen ids i, contains-once (j ∷ seen) ids i, eq_iff i j)

pub installed_listed :
    (ms : Manifests) (i : String) → is_installed ms i ≡ true → contains (manifest_order ms) i ≡ true
unfolding by_id later_or
installed_listed [] i h = h
installed_listed (m ∷ ms) i h = ground (arith, installed_listed ms i)

enabled_later :
    (tag : String) (o : Option AgenticModuleManifest) (i : String) (m : AgenticModuleManifest)
    (rest : Bool)
    → (is_enabled tag o ≡ true → rest ≡ true)
    → is_enabled tag (later_or o i m) ≡ true
    → (i == m.module_id && contains m.mode_tags tag || rest) ≡ true
unfolding later_or
enabled_later tag (some k) i m rest f h = ground (arith, f h)
enabled_later tag none i m rest f h = ground (arith, h)

-- a module whose manifest has the tag is eligible
pub enabled_eligible :
    (ms : Manifests) (tag i : String)
    → is_enabled tag (by_id ms i) ≡ true
    → is_eligible ms tag i ≡ true
unfolding by_id is_eligible
enabled_eligible [] tag i h = cc
enabled_eligible (m ∷ ms) tag i h =
    enabled_later tag (by_id ms i) i m (is_eligible ms tag i) (enabled_eligible ms tag i) h
