-- ===== src/Chronology/Examples.antt =====
-- The theorems of the chronology at concrete sessions and budgets.
use llm_api_mind.Base.{◌+◌, ◌≤◌, ◌<◌, none, some, List, [], ◌∷◌, ◌++◌, map, true, ◌≡◌, refl, ◌↔◌}
use llm_api_mind.Storage.Sessions.{get_chat_session, list_turns_for_session, list_traces_for_turn}
use llm_api_mind.Storage.Models.{ChatSession}
use llm_api_mind.Base.Sorting.{sort_by, insert_by}
use llm_api_mind.Chronology.Messages.{
  ProviderMessage, provider_messages, provider_items, provider_message, known_role, latest_trace,
}
use llm_api_mind.Chronology.SourceMap.{
  MappedHistory, ok, build_chronology_source_map, snapshots, snapshot, requested,
}
use llm_api_mind.Chronology.SourceMap.Sound.{Covers, verified-Covers, legacy_messages}
use llm_api_mind.Chronology.SourceMap.Complete.{
  history, requests, segment, contents, recorded_history_verified,
}
use llm_api_mind.Chronology.SourceMap.Sound.{turn_ids}
use llm_api_mind.Chronology.Partition.{
  verified, build_history_partition_plan, turns_of, requires_compaction,
}
use llm_api_mind.Chronology.Partition.Required.{newest_cost, requires_compaction_iff}
use llm_api_mind.Chronology.Partition.Budget.{
  IsCut, plan-IsCut, plan_partitions, requires_compaction_fits,
}
use llm_api_mind.Chronology.Samples.{
  three_turns, budgets, python, python-EqReflexive, session, first, second, database,
}

session_found : get_chat_session database "s" ≡ some session
unfolding get_chat_session
session_found = refl

history_parsed :
    provider_messages (some session.provider_history_json) ≡ some (history [] (first ∷ second ∷ []))
unfolding provider_messages provider_items provider_message known_role
history_parsed = refl

requests_read :
    snapshots database (list_turns_for_session database "s" (some "completed") none)
    ≡ ok (requests [] (first ∷ second ∷ []))
unfolding snapshots snapshot requested list_turns_for_session list_traces_for_turn latest_trace
    sort_by insert_by provider_messages provider_items provider_message known_role
requests_read = refl

recorded_history_verified_example :
    (m : MappedHistory) × (build_chronology_source_map python database "s" ≡ ok m)
    × (m.mapping_verified ≡ true)
    × (contents m.turns ≡ map segment (first ∷ second ∷ []))
    × (legacy_messages m.legacy_prefix ≡ [])
recorded_history_verified_example =
    recorded_history_verified python python-EqReflexive database "s" session [] first (second ∷ [])
      session_found history_parsed requests_read

-- the map of the sample session
abbrev sample_map : MappedHistory
sample_map =
    (recorded_history_verified python python-EqReflexive database "s" session [] first (second ∷ [])
      session_found history_parsed requests_read).0

sample_map_built : build_chronology_source_map python database "s" ≡ ok sample_map
sample_map_built =
    (recorded_history_verified python python-EqReflexive database "s" session [] first (second ∷ [])
      session_found history_parsed requests_read).1

sample_map_verified : sample_map.mapping_verified ≡ true
sample_map_verified =
    (recorded_history_verified python python-EqReflexive database "s" session [] first (second ∷ [])
      session_found history_parsed requests_read).2

verified-Covers_example :
    (session : ChatSession) × (canonical : List ProviderMessage) × (get_chat_session database "s"
      ≡ some session)
    × (provider_messages (some session.provider_history_json) ≡ some canonical)
    × Covers python canonical
        (list_turns_for_session database "s" (some "completed") none)
        sample_map
verified-Covers_example =
    verified-Covers python database "s" sample_map sample_map_built sample_map_verified

plan-IsCut_example :
    IsCut budgets (turns_of three_turns) (build_history_partition_plan budgets three_turns)
plan-IsCut_example = plan-IsCut budgets three_turns

plan_partitions_example :
    let plan = build_history_partition_plan budgets three_turns in
    (plan.input_turn_ids ++ plan.selected_turn_ids ≡ turn_ids (turns_of three_turns))
    × (plan.input_estimated_tokens + plan.selected_estimated_tokens ≡ 82)
plan_partitions_example = plan_partitions budgets three_turns refl

asks : (build_history_partition_plan budgets three_turns).status ≡ requires_compaction
unfolding build_history_partition_plan
asks = refl

requires_compaction_fits_example :
    let plan = build_history_partition_plan budgets three_turns in
    (100 + 40 + plan.selected_estimated_tokens + plan.active_growth_tokens + budgets.safety_tokens
      ≤ 300)
    × (0 < plan.active_growth_tokens)
    × (100 + 40 + 50 + plan.active_growth_tokens + budgets.safety_tokens ≡ 300)
requires_compaction_fits_example = requires_compaction_fits budgets three_turns asks

requires_compaction_iff_example :
    (build_history_partition_plan budgets three_turns).status ≡ requires_compaction ↔ (
      (verified three_turns ≡ true)
      × (budgets.mode ≡ "active")
      × (150 ≤ 182)
      × (100 + 40 + 50 + budgets.safety_tokens < 300)
      × (newest_cost three_turns ≤ 50))
requires_compaction_iff_example = requires_compaction_iff budgets three_turns
