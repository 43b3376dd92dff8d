-- ===== src/Modules/Plan/Modes.antt =====
-- The check of `build_activation_plan` that required dependencies are in the mode.
use llm_api_mind.Base.{
  String, some, List, [], ◌∷◌, Bool, true, false, ◌||◌, not, ◌≡◌, subst, All, Bool-cases, inl, inr,
  if◌then◌else◌,
}
use llm_api_mind.Modules.Manifest.{ModuleDependency, AgenticModuleManifest}
use llm_api_mind.Modules.Ledger.{Ledger, is_blocked}
use llm_api_mind.Modules.Plan.{
  Manifests, by_id, is_installed, is_enabled, is_eligible, check_enabled, check_modes,
}
use llm_api_mind.Modules.Plan.Blocking.{Grows, Grows-refl, blocked_unless, unless-Grows}

module _ (all_of : Manifests) (tag : String) where
  -- the dependency is optional, not installed, or in the mode
  abbrev pub enabled_or_free : ModuleDependency → Bool
  enabled_or_free d =
      d.optional
      || not (is_installed all_of d.module_id)
      || is_enabled tag (by_id all_of d.module_id)

  check_enabled-Grows :
      (i : String) (ds : List ModuleDependency) (l : Ledger)
      → Grows l (check_enabled all_of tag i ds l)
  unfolding check_enabled
  check_enabled-Grows i [] l j h = h
  check_enabled-Grows i (d ∷ ds) l j h =
      unless-Grows (enabled_or_free d) l i "dependency.inactive_for_mode" (some d.module_id) j
        (check_enabled-Grows i ds _ j h)

  check_enabled-All :
      (i : String) (ds : List ModuleDependency) (l : Ledger)
      → is_blocked (check_enabled all_of tag i ds l).blocked i ≡ false
      → All (λ d. enabled_or_free d ≡ true) ds
  unfolding check_enabled
  check_enabled-All i [] l h = tt
  check_enabled-All i (d ∷ ds) l h = (
    blocked_unless (enabled_or_free d) l i "dependency.inactive_for_mode" (some d.module_id)
        (check_enabled-Grows i ds _ i h),
    check_enabled-All i ds _ h,
  )

  -- one turn of the loop over the manifests
  mode_step : AgenticModuleManifest → Ledger → Ledger
  mode_step m l =
      if is_eligible all_of tag m.module_id
      then check_enabled all_of tag m.module_id m.dependencies l
      else l

  mode_step-Grows : (m : AgenticModuleManifest) (l : Ledger) → Grows l (mode_step m l)
  unfolding mode_step
  mode_step-Grows m l = elim (Bool-cases (is_eligible all_of tag m.module_id)) [
    | inl e ↦ rw (mode_step, e) (check_enabled-Grows m.module_id m.dependencies l)
    | inr e ↦ rw (mode_step, e) (Grows-refl l)
  ]

  mode_step-All :
      (m : AgenticModuleManifest) (l : Ledger)
      → is_eligible all_of tag m.module_id ≡ true
      → is_blocked (mode_step m l).blocked m.module_id ≡ false
      → All (λ d. enabled_or_free d ≡ true) m.dependencies
  unfolding mode_step
  mode_step-All m l e h = check_enabled-All m.module_id m.dependencies l (
      subst
        (λ b.
          is_blocked
            (if b then check_enabled all_of tag m.module_id m.dependencies l else l).blocked
            m.module_id
          ≡ false)
        e h)

  pub check_modes-Grows : (ms : Manifests) (l : Ledger) → Grows l (check_modes all_of tag ms l)
  unfolding check_modes mode_step
  check_modes-Grows [] l j h = h
  check_modes-Grows (m ∷ ms) l j h =
      mode_step-Grows m l j (check_modes-Grows ms (mode_step m l) j h)

  pub check_modes-All :
      (ms : Manifests) (l : Ledger)
      → All
          (λ m.
            is_eligible all_of tag m.module_id ≡ true
            → is_blocked (check_modes all_of tag ms l).blocked m.module_id ≡ false
            → All (λ d. enabled_or_free d ≡ true) m.dependencies)
          ms
  unfolding check_modes mode_step
  check_modes-All [] l = tt
  check_modes-All (m ∷ ms) l = (
    (λ e h. mode_step-All m l e (check_modes-Grows ms (mode_step m l) m.module_id h)),
    check_modes-All ms (mode_step m l),
  )
