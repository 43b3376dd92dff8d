-- ===== src/Modules/Manifest.antt =====
-- The fields of backend/scarlet_agentic_module_sdk/contracts.py that activation reads. A version
-- field is a parsed value: the validators of the manifest have refused any other text.
use llm_api_mind.Base.{String, Option, none, some, List, Bool, true, false, if◌then◌else◌}
use llm_api_mind.Modules.Semver.{Semver, compare_semver, is_lt}

pub record CoreCompatibility : Type 0 where
  pub minimum_core_version : Semver
  pub maximum_core_version_exclusive : Option Semver
  pub required_contracts : List (String × String)

pub record ModuleDependency : Type 0 where
  pub module_id : String
  pub minimum_version : Semver
  pub maximum_version_exclusive : Option Semver
  pub optional : Bool

pub record AgenticModuleManifest : Type 0 where
  pub module_id : String
  pub module_version : Semver
  pub mode_tags : List String
  pub core_compatibility : CoreCompatibility
  pub dependencies : List ModuleDependency

-- `maximum is None or compare_semver(version, maximum) < 0`
unfoldable pub below_maximum : Semver → Option Semver → Bool
below_maximum v none = true
below_maximum v (some maximum) = is_lt (compare_semver v maximum)

-- `CoreCompatibility.supports`
unfoldable pub supports : CoreCompatibility → Semver → Bool
unfolding below_maximum
supports c v =
    if is_lt (compare_semver v c.minimum_core_version)
    then false
    else below_maximum v c.maximum_core_version_exclusive

-- `ModuleDependency.accepts`
unfoldable pub accepts : ModuleDependency → Semver → Bool
unfolding below_maximum
accepts d v =
    if is_lt (compare_semver v d.minimum_version)
    then false
    else below_maximum v d.maximum_version_exclusive
