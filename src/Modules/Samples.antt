-- ===== src/Modules/Samples.antt =====
-- Two sample modules, of which one requires the other.
use llm_api_mind.Base.{ℕ, String, none, some, List, [], ◌∷◌, false}
use llm_api_mind.Modules.Semver.{Semver}
use llm_api_mind.Modules.Manifest.{ModuleDependency, AgenticModuleManifest}
use llm_api_mind.Modules.Ledger.{Ledger}
use llm_api_mind.Modules.Plan.{Request}

abbrev pub version : ℕ → Semver
version major = record { major = major; minor = 0; patch = 0; prerelease = none }

abbrev pub manifest : String → List ModuleDependency → AgenticModuleManifest
manifest id dependencies = record {
  module_id = id;
  module_version = version 1;
  mode_tags = "chat" ∷ [];
  core_compatibility = record {
    minimum_core_version = version 1;
    maximum_core_version_exclusive = some (version 3);
    required_contracts = ("context", "v1") ∷ [];
  };
  dependencies = dependencies;
}

abbrev pub needs_memory : ModuleDependency
needs_memory = record {
  module_id = "memory";
  minimum_version = version 1;
  maximum_version_exclusive = some (version 2);
  optional = false;
}

abbrev pub request : Request
request = record {
  manifests = manifest "focus" (needs_memory ∷ []) ∷ manifest "memory" [] ∷ [];
  core_version = "2.0.0";
  active_mode_tag = "chat";
  known_mode_tags = "chat" ∷ "work" ∷ [];
  available_contracts = ("context", "v1") ∷ [];
}

abbrev pub nothing_blocked : Ledger
nothing_blocked = record { blocked = []; diagnostics = [] }
