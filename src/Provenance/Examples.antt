-- ===== src/Provenance/Examples.antt =====
-- The provenance theorems at a sample memory.
use llm_api_mind.Base.{none, some, [], ◌∷◌, ◌≡◌, refl, ◌↔◌, ◌⊎◌, true, false}
use llm_api_mind.Base.Sorting.{sorted, sort_by, insert_by}
use llm_api_mind.Storage.Memories.{list_all_memories}
use llm_api_mind.Storage.Sessions.{get_chat_session, get_turn, list_messages_for_turn}
use llm_api_mind.Provenance.Classify.{
  source_complete_valid, classify_provenance, classify_hook, user_messages, classify_record,
  explicit_fixture_evidence,
}
use llm_api_mind.Provenance.Audit.{
  source_session, audit_item, memory_provenance_audit, exact_duplicate_ids, is_repeated,
  normalize_content, candidate_set,
}
use llm_api_mind.Provenance.Repair.{
  done, lacks_backup, previewed, repair_exact_source_messages, validate_mutation_guard,
}
use llm_api_mind.Provenance.Resolves.{Resolves, valid-Resolves}
use llm_api_mind.Provenance.Guard.{repair_guarded}
use llm_api_mind.Provenance.Samples.{plain_text, sourced, database, preview}

-- The audit proposes the one memory for repair.
candidate_test :
    (memory_provenance_audit plain_text database none).exact_source_message_repair.memory_ids
    ≡ "mem" ∷ []
unfolding memory_provenance_audit audit_item candidate_set classify_provenance classify_hook
    user_messages classify_record explicit_fixture_evidence get_chat_session get_turn
    list_messages_for_turn list_all_memories sort_by insert_by exact_duplicate_ids is_repeated
    normalize_content sorted
candidate_test = refl

valid-Resolves_example :
    (classify_provenance plain_text database sourced
        (source_session database (some "s"))).classification
      ≡ source_complete_valid
    ↔ Resolves database (some "s") (some "t") (some "m")
valid-Resolves_example = valid-Resolves plain_text database sourced

previewed_test :
    repair_exact_source_messages plain_text database preview (λ id. (id, 4))
    ≡ done database (
        previewed plain_text preview
          (memory_provenance_audit plain_text database none).exact_source_message_repair)
unfolding repair_exact_source_messages validate_mutation_guard
previewed_test = refl

repair_guarded_example :
    (true ≡ true) × (database ≡ database)
    ⊎ (true ≡ false)
      × (lacks_backup plain_text none ≡ false)
      × (none
          ≡ some
              (memory_provenance_audit plain_text database
                none).exact_source_message_repair.digest_sha256)
repair_guarded_example =
    repair_guarded plain_text database database preview (λ id. (id, 4))
      (previewed plain_text preview
        (memory_provenance_audit plain_text database none).exact_source_message_repair)
      previewed_test
