-- ===== src/Modules/Plan/Blocking.antt =====
-- The checks of `build_activation_plan` only ever add blocked modules, and block what violates them.
use llm_api_mind.Base.{
  String, Option, none, some, List, [], ◌∷◌, Bool, true, false, ◌≡◌, refl, arith, eq_refl, All, all,
  contains, Bool-cases, Option-cases, inl, inr, if◌then◌else◌,
}
use llm_api_mind.Modules.Semver.{Semver}
use llm_api_mind.Modules.Manifest.{ModuleDependency, AgenticModuleManifest, supports, accepts}
use llm_api_mind.Modules.Ledger.{Ledger, is_blocked, block, is_blocked-add_reason, is_blocked-block}
use llm_api_mind.Modules.Plan.{
  Manifests, by_id, block_all, is_version, contract, check_contracts, note_dependency,
  check_dependency, check_dependencies, check_manifest, check_manifests,
}

-- what the second ledger does not block, the first one does not block
abbrev pub Grows : Ledger → Ledger → Type 0
Grows l k = (i : String) → is_blocked k.blocked i ≡ false → is_blocked l.blocked i ≡ false

pub Grows-refl : (l : Ledger) → Grows l l
Grows-refl l i h = h

pub block-Grows :
    (l : Ledger) (i code : String) (dep : Option String) → Grows l (block l i code dep)
block-Grows l i code dep j h = ground (arith, is_blocked-block l i j code dep, h)

pub block_blocks :
    (l : Ledger) (i code : String) (dep : Option String)
    → is_blocked (block l i code dep).blocked i ≡ true
block_blocks l i code dep = ground (arith, is_blocked-block l i i code dep, eq_refl i)

-- a test that blocks its module when it fails
pub blocked_unless :
    (ok : Bool) (l : Ledger) (i code : String) (dep : Option String)
    → is_blocked (if ok then l else block l i code dep).blocked i ≡ false
    → ok ≡ true
blocked_unless true l i code dep h = refl
blocked_unless false l i code dep h = absurd (ground (arith, block_blocks l i code dep, h))

pub unless-Grows :
    (ok : Bool) (l : Ledger) (i code : String) (dep : Option String)
    → Grows l (if ok then l else block l i code dep)
unless-Grows true l i code dep = Grows-refl l
unless-Grows false l i code dep = block-Grows l i code dep

pub block_all-Grows :
    (l : Ledger) (ids : List String) (code : String) → Grows l (block_all l ids code)
unfolding block_all
block_all-Grows l [] code j h = h
block_all-Grows l (i ∷ ids) code j h =
    block-Grows l i code none j (block_all-Grows (block l i code none) ids code j h)

check_contracts-Grows :
    (contracts : List (String × String)) (i : String) (required : List (String × String))
    (l : Ledger)
    → Grows l (check_contracts contracts i required l)
unfolding check_contracts
check_contracts-Grows contracts i [] l j h = h
check_contracts-Grows contracts i ((name, v) ∷ rest) l j h =
    unless-Grows (is_version (contract contracts name) v) l i "module.contract_incompatible" none j
      (check_contracts-Grows contracts i rest _ j h)

-- every required contract is available in its version
abbrev pub Offered : List (String × String) → List (String × String) → Type 0
Offered contracts = All (λ (name, v). is_version (contract contracts name) v ≡ true)

check_contracts-Offered :
    (contracts : List (String × String)) (i : String) (required : List (String × String))
    (l : Ledger)
    → is_blocked (check_contracts contracts i required l).blocked i ≡ false
    → Offered contracts required
unfolding check_contracts
check_contracts-Offered contracts i [] l h = tt
check_contracts-Offered contracts i ((name, v) ∷ rest) l h = (
  blocked_unless (is_version (contract contracts name) v) l i "module.contract_incompatible" none
      (check_contracts-Grows contracts i rest _ i h),
  check_contracts-Offered contracts i rest _ h,
)

note_dependency-Grows :
    (l : Ledger) (i : String) (d : ModuleDependency) (optional required : String)
    → Grows l (note_dependency l i d optional required)
unfolding note_dependency
note_dependency-Grows l i d optional required j h =
    ground (arith, h, is_blocked-add_reason l.blocked i j required)

note_dependency_blocks :
    (l : Ledger) (i : String) (d : ModuleDependency) (optional required : String)
    → d.optional ≡ false
    → is_blocked (note_dependency l i d optional required).blocked i ≡ true
unfolding note_dependency
note_dependency_blocks l i d optional required e =
    ground (arith, e, is_blocked-add_reason l.blocked i i required, eq_refl i)

-- the dependency is installed, in a version that it accepts
pub record Met (ms : Manifests) (d : ModuleDependency) : Type 0 where
  pub target : AgenticModuleManifest
  pub installed : by_id ms d.module_id ≡ some target
  pub accepted : accepts d target.module_version ≡ true

check_dependency-Grows :
    (ms : Manifests) (i : String) (d : ModuleDependency) (l : Ledger)
    → Grows l (check_dependency ms i d l)
unfolding check_dependency
check_dependency-Grows ms i d l = elim (Option-cases (by_id ms d.module_id)) [
  | inl e ↦ rw (check_dependency, e) (note_dependency-Grows l i d _ _)
  | inr (t, e) ↦ elim (Bool-cases (accepts d t.module_version)) [
    | inl a ↦ rw (check_dependency, e, a) (Grows-refl l)
    | inr a ↦ rw (check_dependency, e, a) (note_dependency-Grows l i d _ _)
  ]
]

missing_blocks :
    (ms : Manifests) (i : String) (d : ModuleDependency) (l : Ledger)
    → by_id ms d.module_id ≡ none
    → d.optional ≡ false
    → is_blocked (check_dependency ms i d l).blocked i ≡ true
unfolding check_dependency
missing_blocks ms i d l n e = rw (check_dependency, n) (note_dependency_blocks l i d _ _ e)

refused_blocks :
    (ms : Manifests) (i : String) (d : ModuleDependency) (l : Ledger) {t : AgenticModuleManifest}
    → by_id ms d.module_id ≡ some t
    → accepts d t.module_version ≡ false
    → d.optional ≡ false
    → is_blocked (check_dependency ms i d l).blocked i ≡ true
unfolding check_dependency
refused_blocks ms i d l n a e = rw (check_dependency, n, a) (note_dependency_blocks l i d _ _ e)

check_dependency-Met :
    (ms : Manifests) (i : String) (d : ModuleDependency) (l : Ledger)
    → is_blocked (check_dependency ms i d l).blocked i ≡ false
    → d.optional ≡ false
    → Met ms d
check_dependency-Met ms i d l h e = elim (Option-cases (by_id ms d.module_id)) [
  | inl n ↦ absurd (ground (arith, h, missing_blocks ms i d l n e))
  | inr (t, n) ↦ elim (Bool-cases (accepts d t.module_version)) [
    | inl a ↦ record { target = t; installed = n; accepted = a }
    | inr a ↦ absurd (ground (arith, h, refused_blocks ms i d l n a e))
  ]
]

check_dependencies-Grows :
    (ms : Manifests) (i : String) (ds : List ModuleDependency) (l : Ledger)
    → Grows l (check_dependencies ms i ds l)
unfolding check_dependencies
check_dependencies-Grows ms i [] l j h = h
check_dependencies-Grows ms i (d ∷ ds) l j h =
    check_dependency-Grows ms i d l j
      (check_dependencies-Grows ms i ds (check_dependency ms i d l) j h)

-- every required dependency is met
abbrev pub AllMet : Manifests → List ModuleDependency → Type 0
AllMet ms = All (λ d. d.optional ≡ false → Met ms d)

check_dependencies-AllMet :
    (ms : Manifests) (i : String) (ds : List ModuleDependency) (l : Ledger)
    → is_blocked (check_dependencies ms i ds l).blocked i ≡ false
    → AllMet ms ds
unfolding check_dependencies
check_dependencies-AllMet ms i [] l h = tt
check_dependencies-AllMet ms i (d ∷ ds) l h = (
  check_dependency-Met ms i d l (check_dependencies-Grows ms i ds (check_dependency ms i d l) i h),
  check_dependencies-AllMet ms i ds (check_dependency ms i d l) h,
)

module _ (all_of : Manifests) (tags : List String) (contracts : List (String × String))
    (core : Semver) where
  -- what the first loop asks of a manifest
  pub record Compatible (m : AgenticModuleManifest) : Type 0 where
    pub tags_known : all (contains tags) m.mode_tags ≡ true
    pub supported : supports m.core_compatibility core ≡ true
    pub offered : Offered contracts m.core_compatibility.required_contracts
    pub dependencies : AllMet all_of m.dependencies

  check_manifest-Compatible :
      (m : AgenticModuleManifest) (l : Ledger)
      → is_blocked (check_manifest all_of tags contracts core m l).blocked m.module_id ≡ false
      → Compatible m
  unfolding check_manifest
  check_manifest-Compatible m l h =
      let l1 : Ledger =
        if all (contains tags) m.mode_tags
        then l
        else block l m.module_id "module.unknown_mode_tag" none in
      let l2 : Ledger =
        if supports m.core_compatibility core
        then l1
        else block l1 m.module_id "module.core_incompatible" none in
      let l3 : Ledger =
        check_contracts contracts m.module_id m.core_compatibility.required_contracts l2 in
      let h3 : is_blocked l3.blocked m.module_id ≡ false =
        check_dependencies-Grows all_of m.module_id m.dependencies l3 m.module_id h in
      let h2 : is_blocked l2.blocked m.module_id ≡ false =
        check_contracts-Grows contracts m.module_id m.core_compatibility.required_contracts l2
          m.module_id h3 in
      record {
        tags_known = blocked_unless (all (contains tags) m.mode_tags) l m.module_id _ none (
            unless-Grows (supports m.core_compatibility core) l1 m.module_id _ none m.module_id h2);
        supported = blocked_unless (supports m.core_compatibility core) l1 m.module_id _ none h2;
        offered =
            check_contracts-Offered contracts m.module_id m.core_compatibility.required_contracts l2
              h3;
        dependencies = check_dependencies-AllMet all_of m.module_id m.dependencies l3 h;
      }

  check_manifest-Grows :
      (m : AgenticModuleManifest) (l : Ledger)
      → Grows l (check_manifest all_of tags contracts core m l)
  unfolding check_manifest
  check_manifest-Grows m l j h =
      unless-Grows (all (contains tags) m.mode_tags) l m.module_id _ none j (
        unless-Grows (supports m.core_compatibility core) _ m.module_id _ none j (
          check_contracts-Grows contracts m.module_id m.core_compatibility.required_contracts _ j
            (check_dependencies-Grows all_of m.module_id m.dependencies _ j h)))

  pub check_manifests-Grows :
      (ms : Manifests) (l : Ledger) → Grows l (check_manifests all_of tags contracts core ms l)
  unfolding check_manifests
  check_manifests-Grows [] l j h = h
  check_manifests-Grows (m ∷ ms) l j h =
      check_manifest-Grows m l j
        (check_manifests-Grows ms (check_manifest all_of tags contracts core m l) j h)

  pub check_manifests-Compatible :
      (ms : Manifests) (l : Ledger)
      → All
          (λ m.
            is_blocked (check_manifests all_of tags contracts core ms l).blocked m.module_id ≡ false
            → Compatible m)
          ms
  unfolding check_manifests
  check_manifests-Compatible [] l = tt
  check_manifests-Compatible (m ∷ ms) l =
      let l' : Ledger = check_manifest all_of tags contracts core m l in
      (
        (λ h. check_manifest-Compatible m l (check_manifests-Grows ms l' m.module_id h)),
        check_manifests-Compatible ms l',
      )
