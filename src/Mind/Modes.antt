-- ===== src/Mind/Modes.antt =====
-- backend/app/mind/agent_modes.py: the preferred mode of a profile, and the routing of context
-- blocks by the active mode. The texts of purposes, notes and reasons are left out.
pub mod Routing
pub mod Examples
use Prim.Native.String.{◌++◌ as ◌<>◌}
use llm_api_mind.Base.{
  ◌≡◌, refl, ap, ◌∙◌, arith, ℕ, suc, String, Option, none, some, List, [], ◌∷◌, map, filter, find,
  Bool, true, false, ◌==◌, ◌&&◌, not, contains, ◌⊎◌, inl, inr, is_some, if◌then◌else◌,
}
use mathlib.Core.Option
use llm_api_mind.Base.Json.{Json, null, str, obj, Fields, end, field, get}
use llm_api_mind.Storage.Models.{AppSetting, Database}
use llm_api_mind.Storage.Settings.{get_app_setting, upsert_app_setting, get-upsert_setting}
use llm_api_mind.Chronology.Python.{Python}
use llm_api_mind.Chronology.Messages.{truthy}

abbrev pub agent_mode_values : List String
agent_mode_values = "idle" ∷ "interactive" ∷ "scouting" ∷ []

abbrev pub agent_mode_resumable_values : List String
agent_mode_resumable_values = "idle" ∷ "scouting" ∷ []

pub record ModeCapabilitySpec : Type 0 where
  pub capability : String
  pub kind : String
  pub mode_tags : List String
  pub status : String
  pub context_block_type : Option String

abbrev spec : String → String → List String → String → Option String → ModeCapabilitySpec
spec capability kind tags status block = record {
  capability = capability;
  kind = kind;
  mode_tags = tags;
  status = status;
  context_block_type = block;
}

unfoldable pub mode_capabilities : List ModeCapabilitySpec
mode_capabilities =
    spec "context.agent_mode" "context" agent_mode_values "implemented" (some "agent_mode_context")
    ∷ spec "context.session_spine" "context" agent_mode_values "implemented"
        (some "session_context")
    ∷ spec "context.turn_perception" "context" ("interactive" ∷ "scouting" ∷ []) "implemented"
        (some "message_context")
    ∷ spec "context.scarlet_state" "context" agent_mode_values "implemented" (some "scarlet_state")
    ∷ spec "continuity.provider_history" "continuity" ("interactive" ∷ []) "implemented" none
    ∷ spec "cognition.mind_shell" "capability" agent_mode_values "implemented" none
    ∷ spec "organ.focus" "organ" agent_mode_values "implemented_config_gated" (some "focus_context")
    ∷ spec "organ.volition" "organ" ("idle" ∷ "scouting" ∷ []) "implemented_manual_only"
        (some "volition_context")
    ∷ spec "organ.affect" "organ" ("interactive" ∷ "scouting" ∷ []) "implemented_config_gated"
        (some "affective_context")
    ∷ spec "organ.metacognition" "organ" ("interactive" ∷ "scouting" ∷ []) "implemented_on_demand"
        (some "metacognitive_context")
    ∷ spec "future.environment_scouting" "capability" ("scouting" ∷ []) "future_no_sensor_runtime"
        none
    ∷ []

unfoldable pub setting_key : String → String
setting_key profile_id = "agent_mode" <> ":" <> profile_id

-- `_mode_runtime_implemented` over the registry of modes
unfoldable pub mode_runtime_implemented : String → Bool
mode_runtime_implemented mode = contains ("idle" ∷ "interactive" ∷ []) mode

-- the dict of `preferred_agent_mode`; the time stamp is the one that `isoformat` prints
pub record PreferredMode : Type 0 where
  pub mode : String
  pub source : Json
  pub reason : Json
  pub updated_at : Option ℕ

abbrev or_null : Option Json → Json
or_null none = null
or_null (some v) = v

-- `stored if isinstance(stored, dict) else {"mode": stored}`
abbrev payload_of : Option Json → Fields
payload_of (some (obj fs)) = fs
payload_of none = field "mode" null end
payload_of (some v) = field "mode" v end

abbrev known_mode : (fallback : String) → Option Json → String
known_mode fallback (some (str m)) = if contains agent_mode_values m then m else fallback
known_mode fallback _ = fallback

abbrev or_setting : Python → Json → Json
or_setting py v = if truthy py v then v else str "persistent_setting"

-- the dict of `resolve_agent_mode`, without its constants
pub record ResolvedMode : Type 0 where
  pub active_tag : String
  pub source : Json
  pub reason : Json
  pub active_runtime_implemented : Bool
  pub resume_tag : Option String
  pub resume_runtime_implemented : Option Bool

pub record ModeChange : Type 0 where
  pub previous_tag : String
  pub preferred_tag : String
  pub reason : String
  pub updated_at : ℕ

abbrev system_tag : Option String → Option String
system_tag none = none
system_tag (some m) = if contains agent_mode_values m then some m else none

module _ (py : Python) where
  unfoldable pub stored_mode :
      (fallback : String) → (value_json : Fields) → (updated_at : ℕ) → PreferredMode
  stored_mode fallback value_json updated_at =
      let payload : Fields = payload_of (get value_json "value") in
      record {
        mode = known_mode fallback (get payload "mode");
        source = or_setting py (or_null (get payload "source"));
        reason = or_null (get payload "reason");
        updated_at = some updated_at;
      }

  unfoldable pub preferred_agent_mode : Database → (profile_id default : String) → PreferredMode
  unfolding setting_key stored_mode
  preferred_agent_mode db profile_id default =
      let fallback : String = if contains agent_mode_values default then default else "idle" in
      elim (get_app_setting db (setting_key profile_id)) [
        | none ↦ record {
          mode = fallback;
          source = str "configured_default";
          reason = null;
          updated_at = none;
        }
        | some setting ↦ stored_mode fallback setting.value_json setting.updated_at
      ]

  unfoldable pub resolve_agent_mode :
      Database
      → (profile_id default : String) → (system_mode system_reason : Option String) → ResolvedMode
  unfolding mode_runtime_implemented
  resolve_agent_mode db profile_id default system_mode system_reason =
      let preferred : PreferredMode = preferred_agent_mode db profile_id default in
      elim (system_tag system_mode) [
        | none ↦ record {
          active_tag = preferred.mode;
          source = preferred.source;
          reason = preferred.reason;
          active_runtime_implemented = mode_runtime_implemented preferred.mode;
          resume_tag = none;
          resume_runtime_implemented = none;
        }
        | some tag ↦ record {
          active_tag = tag;
          source = str "system_condition";
          reason = or_null (Option.map (λ t. str t) system_reason);
          active_runtime_implemented = mode_runtime_implemented tag;
          resume_tag = some preferred.mode;
          resume_runtime_implemented = some (mode_runtime_implemented preferred.mode);
        }
      ]

  -- The database after the call and the report; `inl` is a `ValueError` with its text.
  unfoldable pub set_preferred_agent_mode :
      Database → (profile_id mode reason : String) → (now : ℕ) → String ⊎ (Database × ModeChange)
  unfolding setting_key
  set_preferred_agent_mode db profile_id mode reason now =
      if not (contains agent_mode_values mode)
      then inl ("Unsupported agent mode: " <> mode)
      else if not (contains agent_mode_resumable_values mode)
      then inl ("Agent mode is not resumable: " <> mode)
      else inr (
        upsert_app_setting db (setting_key profile_id)
            (obj (
              field "mode" (str mode)
                (field "reason" (str reason) (field "source" (str "scarlet_manual") end))))
            now,
        record {
          previous_tag = (preferred_agent_mode db profile_id "idle").mode;
          preferred_tag = mode;
          reason = reason;
          updated_at = now;
        },
      )

  abbrev fallback_of : String → String
  fallback_of default = if contains agent_mode_values default then default else "idle"

  preferred_stored :
      (db : Database) (profile_id default : String) (s : AppSetting)
      → get_app_setting db (setting_key profile_id) ≡ some s
      → preferred_agent_mode db profile_id default
        ≡ stored_mode (fallback_of default) s.value_json s.updated_at
  unfolding preferred_agent_mode
  preferred_stored db profile_id default s e = rw (preferred_agent_mode, e) refl

  abbrev manual : (mode reason : String) → Json
  manual mode reason = obj (
      field "mode" (str mode)
        (field "reason" (str reason) (field "source" (str "scarlet_manual") end)))

  stored_manual :
      (fallback mode reason : String) (now : ℕ)
      → contains agent_mode_values mode ≡ true
      → stored_mode fallback (field "value" (manual mode reason) end) now ≡ record {
        mode = mode;
        source = str "scarlet_manual";
        reason = str reason;
        updated_at = some now;
      }
  unfolding stored_mode
  stored_manual fallback mode reason now known =
      ap
        (λ b. record {
          mode = if b then mode else fallback;
          source = str "scarlet_manual";
          reason = str reason;
          updated_at = some now;
        })
        known

  set_allowed :
      (db : Database) (profile_id mode reason : String) (now : ℕ)
      → contains agent_mode_values mode ≡ true
      → contains agent_mode_resumable_values mode ≡ true
      → set_preferred_agent_mode db profile_id mode reason now
        ≡ inr (
          upsert_app_setting db (setting_key profile_id) (manual mode reason) now,
          record {
            previous_tag = (preferred_agent_mode db profile_id "idle").mode;
            preferred_tag = mode;
            reason = reason;
            updated_at = now;
          },
        )
  unfolding set_preferred_agent_mode
  set_allowed db profile_id mode reason now known resumable = ground (arith, known, resumable)

  -- Setting a resumable mode returns, and the mode, its reason and its time are what the profile
  -- then prefers, whatever was stored before and whatever the default is.
  pub preferred-set :
      (db : Database) (profile_id mode reason default : String) (now : ℕ)
      → contains agent_mode_resumable_values mode ≡ true
      → (db' : Database) × (change : ModeChange) × (set_preferred_agent_mode db profile_id mode
            reason now
          ≡ inr (db', change))
        × (preferred_agent_mode db' profile_id default ≡ record {
          mode = mode;
          source = str "scarlet_manual";
          reason = str reason;
          updated_at = some now;
        })
  preferred-set db profile_id mode reason default now resumable =
      let known : contains agent_mode_values mode ≡ true = ground (arith, resumable) in
      let (s, there, is_value, is_now) =
        get-upsert_setting db (setting_key profile_id) (manual mode reason) now in
      (
        _,
        _,
        set_allowed db profile_id mode reason now known resumable,
        preferred_stored _ profile_id default s there
            ∙ ap (λ v. stored_mode (fallback_of default) v s.updated_at) is_value
            ∙ ap (λ t. stored_mode (fallback_of default) (field "value" (manual mode reason) end) t)
                is_now
            ∙ stored_manual (fallback_of default) mode reason now known,
      )
