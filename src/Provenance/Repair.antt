-- ===== src/Provenance/Repair.antt =====
-- `repair_exact_source_messages`, `_validate_mutation_guard` and `_mutation_report` of
-- backend/app/runtime/memory_provenance.py.
use llm_api_mind.Base.{
  ℕ, String, Option, none, some, List, [], ◌∷◌, map, Bool, true, false, ◌||◌, ◌==◌, length,
  if◌then◌else◌, ◌>>=◌,
}
use llm_api_mind.Base.Json.{Json, str, null, end, field}
use llm_api_mind.Storage.Models.{MemoryActivity, Database}
use llm_api_mind.Storage.Memories.{update_memory_source_message, add_memory_activity}
use llm_api_mind.Provenance.Text.{Text}
use llm_api_mind.Provenance.Audit.{AuditItem, CandidateSet, Audit, memory_provenance_audit}

-- what a caller of a mutation gives
pub record MutationRequest : Type 0 where
  pub dry_run : Bool
  pub expected_candidate_digest : Option String
  pub backup_reference : Option String

pub data MutationError : Type 0 where
  backup_required candidate_set_changed : MutationError

pub record MutationReport : Type 0 where
  pub dry_run : Bool
  pub candidate_set : CandidateSet
  pub backup_reference : Option String
  pub applied_count : ℕ
  pub activity_ids : List String
  pub residual_audit : Option Audit

-- `rejected` is `MemoryProvenanceMutationError`, `crashed` a missing item or a failed assertion.
pub data Outcome : Type 0 where
  rejected : MutationError → Outcome
  crashed : Outcome
  done : Database → MutationReport → Outcome

abbrev pub is_digest : Option String → String → Bool
is_digest none actual = false
is_digest (some expected) actual = expected == actual

module _ (text : Text) where
  -- `not backup_reference or not backup_reference.strip()`
  abbrev pub lacks_backup : Option String → Bool
  lacks_backup none = true
  lacks_backup (some b) = b == "" || text.is_blank b

  -- `_validate_mutation_guard`
  unfoldable pub validate_mutation_guard : MutationRequest → CandidateSet → Option MutationError
  validate_mutation_guard r candidates =
      if r.dry_run
      then none
      else if lacks_backup r.backup_reference
      then some backup_required
      else if is_digest r.expected_candidate_digest candidates.digest_sha256
      then none
      else some candidate_set_changed

  -- `items_by_id[memory_id]`: of several items with one id the last counts
  unfoldable pub item_of : List AuditItem → String → Option AuditItem
  item_of [] id = none
  item_of (i ∷ items) id =
      let later = item_of items id in
      elim later [ some j ↦ some j | none ↦ if i.memory_id == id then some i else none ]

  abbrev json_text : Option String → Json
  json_text none = null
  json_text (some t) = str t

  -- `draw` gives the id and the time of the activity row of a memory.
  unfoldable pub repair_activity :
      MutationRequest
      → CandidateSet
      → (String → String × ℕ)
      → AuditItem
      → (message_id : String) → MemoryActivity
  repair_activity r candidates draw i message_id = record {
    id = (draw i.memory_id).0;
    memory_id = i.memory_id;
    activity_kind = "provenance_repair";
    occurred_at = (draw i.memory_id).1;
    profile_id = none;
    actor = "backend";
    source = "maintenance.memory.provenance";
    session_id = i.source_session_id;
    turn_id = i.source_turn_id;
    message_id = some message_id;
    trace_id = none;
    eligible_for_recent = false;
    metadata_json = field "candidate_digest" (str candidates.digest_sha256) (
        field "backup_reference" (json_text r.backup_reference)
          (field "evidence" (str i.evidence) end));
  }

  -- the body of the loop over the candidates
  unfoldable pub repair_one :
      MutationRequest
      → CandidateSet
      → (String → String × ℕ)
      → List AuditItem
      → String
      → Database
      → Option Database
  unfolding item_of repair_activity update_memory_source_message add_memory_activity
  repair_one r candidates draw items memory_id db = do
    item ← item_of items memory_id
    message_id ← item.proposed_source_message_id
    some (
        add_memory_activity (update_memory_source_message db memory_id message_id)
          (repair_activity r candidates draw item message_id))

  unfoldable pub repair_all :
      MutationRequest
      → CandidateSet
      → (String → String × ℕ)
      → List AuditItem
      → List String
      → Database
      → Option Database
  unfolding repair_one
  repair_all r candidates draw items [] db = some db
  repair_all r candidates draw items (id ∷ ids) db = do
    db' ← repair_one r candidates draw items id db
    repair_all r candidates draw items ids db'

  -- `_mutation_report` of an applied repair
  abbrev applied :
      MutationRequest → CandidateSet → (String → String × ℕ) → Database → MutationReport
  applied r candidates draw db = record {
    dry_run = false;
    candidate_set = candidates;
    backup_reference = r.backup_reference;
    applied_count = length candidates.memory_ids;
    activity_ids = map (λ id. (draw id).0) candidates.memory_ids;
    residual_audit = some (memory_provenance_audit text db none);
  }

  abbrev pub previewed : MutationRequest → CandidateSet → MutationReport
  previewed r candidates = record {
    dry_run = true;
    candidate_set = candidates;
    backup_reference = r.backup_reference;
    applied_count = 0;
    activity_ids = [];
    residual_audit = none;
  }

  abbrev finished :
      MutationRequest → CandidateSet → (String → String × ℕ) → Option Database → Outcome
  finished r candidates draw none = crashed
  finished r candidates draw (some db) = done db (applied r candidates draw db)

  -- `repair_exact_source_messages`
  unfoldable pub repair_exact_source_messages :
      Database → MutationRequest → (String → String × ℕ) → Outcome
  unfolding validate_mutation_guard repair_all
  repair_exact_source_messages db r draw =
      let audit = memory_provenance_audit text db none in
      let candidates = audit.exact_source_message_repair in
      elim (validate_mutation_guard r candidates) [
        | some e ↦ rejected e
        | none ↦
            if r.dry_run
            then done db (previewed r candidates)
            else finished r candidates draw
                (repair_all r candidates draw audit.items candidates.memory_ids db)
      ]
