-- ===== src/Mind/Modes/Examples.antt =====
-- The mode theorems at a profile without a setting, and at blocks of four kinds.
use llm_api_mind.Base.{String, some, List, [], ◌∷◌, filter, ◌≡◌, refl, inr}
use llm_api_mind.Base.Json.{Fields, str, end, field}
use llm_api_mind.Storage.Models.{Database}
use llm_api_mind.Storage.Samples.{empty}
use llm_api_mind.Chronology.Samples.{python}
use llm_api_mind.Mind.Modes.{
  ModeChange, set_preferred_agent_mode, preferred_agent_mode, preferred-set,
}
use llm_api_mind.Mind.Modes.Routing.{RoutingDecision, route_context_blocks, passes, route-eq-filter}

preferred-set_example :
    (db' : Database) × (change : ModeChange) × (set_preferred_agent_mode python empty "p" "scouting"
        "look around" 7
      ≡ inr (db', change))
    × (preferred_agent_mode python db' "p" "idle" ≡ record {
      mode = "scouting";
      source = str "scarlet_manual";
      reason = str "look around";
      updated_at = some 7;
    })
preferred-set_example = preferred-set python empty "p" "scouting" "look around" "idle" 7 refl

abbrev typed_block : String → Fields
typed_block type = field "type" (str type) end

abbrev blocks : List Fields
blocks =
    typed_block "session_context"
    ∷ typed_block "volition_context"
    ∷ typed_block "unknown"
    ∷ typed_block "affective_context"
    ∷ []

route-eq-filter_example :
    (decision : RoutingDecision) × (route_context_blocks python blocks "interactive" "active"
      ≡ inr (filter (passes python "interactive" "active") blocks, decision))
route-eq-filter_example = route-eq-filter python blocks "interactive" "active" refl refl
