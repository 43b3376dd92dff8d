-- ===== src/Provenance/Audit.antt =====
-- `memory_provenance_audit`, `_exact_duplicate_ids`, `_normalize_content` and `_candidate_set` of
-- backend/app/runtime/memory_provenance.py. The counters, the time of the report and the constant
-- criteria are left out.
use llm_api_mind.Base.{
  ℕ, String, Option, none, some, List, map, Bool, true, false, ◌&&◌, ◌==◌, not, ltb, length, filter,
  contains, limited, is_some,
}
use llm_api_mind.Base.Sorting.{sorted}
use llm_api_mind.Storage.Models.{ChatSession, MemoryRecord, Database}
use llm_api_mind.Storage.Sessions.{get_chat_session}
use llm_api_mind.Storage.Memories.{list_all_memories}
use llm_api_mind.Provenance.Text.{Text}
use llm_api_mind.Provenance.Classify.{
  ProvenanceClass, EvidenceFlags, classify_provenance, RecordClass, RecommendedAction,
  deprecate_explicit_test_fixture, repair_exact_source_message, classify_record, FixtureEvidence,
  explicit_fixture_evidence,
}

pub record AuditItem : Type 0 where
  pub memory_id : String
  pub memory_type : String
  pub scope : String
  pub status : String
  pub provenance_class : ProvenanceClass
  pub record_class : RecordClass
  pub recommended_action : RecommendedAction
  pub source_session_id : Option String
  pub source_turn_id : Option String
  pub source_message_id : Option String
  pub proposed_source_message_id : Option String
  pub evidence : String
  pub evidence_flags : EvidenceFlags
  pub fixture_evidence : FixtureEvidence
  pub exact_content_duplicate : Bool
  pub content_sha256 : String

pub record CandidateSet : Type 0 where
  pub count : ℕ
  pub digest_sha256 : String
  pub memory_ids : List String

pub record Audit : Type 0 where
  pub checked : ℕ
  pub total_memories : ℕ
  pub is_limited : Bool
  pub exact_source_message_repair : CandidateSet
  pub explicit_test_fixture_deprecation : CandidateSet
  pub items : List AuditItem

abbrev pub is_repair : RecommendedAction → Bool
is_repair repair_exact_source_message = true
is_repair _ = false

abbrev pub is_deprecation : RecommendedAction → Bool
is_deprecation deprecate_explicit_test_fixture = true
is_deprecation _ = false

-- the session that a memory names, where it resolves
abbrev pub source_session : Database → Option String → Option ChatSession
source_session db none = none
source_session db (some id) = get_chat_session db id

module _ (text : Text) where
  -- `_normalize_content`
  unfoldable pub normalize_content : String → String
  normalize_content content = text.join_spaces (text.casefold_words content)

  -- whether a content is not empty and stands more than once among the memories
  unfoldable pub is_repeated : List MemoryRecord → String → Bool
  unfolding normalize_content
  is_repeated memories content =
      not (normalize_content content == "")
      && ltb 1
          (length (filter (λ m. normalize_content m.content == normalize_content content) memories))

  -- `_exact_duplicate_ids`
  unfoldable pub exact_duplicate_ids : List MemoryRecord → List String
  unfolding is_repeated
  exact_duplicate_ids memories =
      map (λ m. m.id) (filter (λ m. is_repeated memories m.content) memories)

  -- the body of the loop over the memories
  unfoldable pub audit_item : Database → List String → MemoryRecord → AuditItem
  unfolding classify_provenance classify_record explicit_fixture_evidence normalize_content
  audit_item db duplicate_ids m =
      let session = source_session db m.source_session_id in
      let provenance = classify_provenance text db m session in
      let fixture = explicit_fixture_evidence m session in
      let (record_class, action) =
        classify_record m provenance.classification fixture.confirmed
          (contains duplicate_ids m.id) in
      record {
        memory_id = m.id;
        memory_type = m.memory_type;
        scope = m.scope;
        status = m.status;
        provenance_class = provenance.classification;
        record_class = record_class;
        recommended_action = action;
        source_session_id = m.source_session_id;
        source_turn_id = m.source_turn_id;
        source_message_id = m.source_message_id;
        proposed_source_message_id = provenance.proposed_source_message_id;
        evidence = provenance.evidence;
        evidence_flags = provenance.evidence_flags;
        fixture_evidence = fixture;
        exact_content_duplicate = contains duplicate_ids m.id;
        content_sha256 = text.sha256 (normalize_content m.content);
      }

  -- `_candidate_set`
  unfoldable pub candidate_set : List AuditItem → CandidateSet
  candidate_set items =
      let memory_ids = sorted (map (λ i. i.memory_id) items) in
      record {
        count = length memory_ids;
        digest_sha256 = text.sha256 (text.join_lines memory_ids);
        memory_ids = memory_ids;
      }

  -- `memory_provenance_audit`
  unfoldable pub memory_provenance_audit : Database → (limit : Option ℕ) → Audit
  unfolding audit_item candidate_set exact_duplicate_ids
  memory_provenance_audit db limit =
      let all_memories = list_all_memories db in
      let duplicate_ids = exact_duplicate_ids all_memories in
      let items = map (audit_item db duplicate_ids) (limited limit all_memories) in
      record {
        checked = length items;
        total_memories = length all_memories;
        is_limited = is_some limit && ltb (length items) (length all_memories);
        exact_source_message_repair =
            candidate_set (filter (λ i. is_repair i.recommended_action) items);
        explicit_test_fixture_deprecation =
            candidate_set (filter (λ i. is_deprecation i.recommended_action) items);
        items = items;
      }
