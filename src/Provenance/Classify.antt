-- ===== src/Provenance/Classify.antt =====
-- `_classify_provenance`, `_classify_record` and `_explicit_fixture_evidence` of
-- backend/app/runtime/memory_provenance.py.
use Prim.Native.String.{◌++◌ as ◌<>◌}
use text.Mathlib.Text.{starts_with}
use llm_api_mind.Base.{
  String, Option, none, some, List, [], ◌∷◌, Bool, false, ◌&&◌, ◌==◌, is_some, filter, length,
  contains, subset, if◌then◌else◌,
}
use llm_api_mind.Base.Json.{Fields, end, field}
use llm_api_mind.Storage.Models.{ChatSession, Turn, Message, MemoryRecord, Database, is_text}
use llm_api_mind.Storage.Sessions.{get_turn, get_message, list_messages_for_turn}
use llm_api_mind.Provenance.Text.{Text}

pub data ProvenanceClass : Type 0 where
  missing_source_session invalid_source_session source_session_only invalid_source_turn :
      ProvenanceClass
  repairable_single_user_message ambiguous_source_turn invalid_source_message : ProvenanceClass
  source_complete_valid : ProvenanceClass

pub record EvidenceFlags : Type 0 where
  pub source_session_present : Bool
  pub source_session_resolves : Bool
  pub source_turn_present : Bool
  pub source_message_present : Bool
  pub source_turn_resolves : Bool
  pub source_turn_matches_session : Bool
  pub source_message_resolves : Bool
  pub source_message_matches_session : Bool
  pub source_message_matches_turn : Bool
  pub source_message_is_user : Bool

pub record Provenance : Type 0 where
  pub classification : ProvenanceClass
  pub evidence : String
  pub evidence_flags : EvidenceFlags
  pub proposed_source_message_id : Option String

-- `_provenance_result`
abbrev pub provenance_result : ProvenanceClass → String → EvidenceFlags → Option String → Provenance
provenance_result c evidence flags proposed = record {
  classification = c;
  evidence = evidence;
  evidence_flags = flags;
  proposed_source_message_id = proposed;
}

-- the flags that the memory and its session decide
abbrev pub first_flags : MemoryRecord → Option ChatSession → EvidenceFlags
first_flags m source_session = record {
  source_session_present = is_some m.source_session_id;
  source_session_resolves = is_some source_session;
  source_turn_present = is_some m.source_turn_id;
  source_message_present = is_some m.source_message_id;
  source_turn_resolves = false;
  source_turn_matches_session = false;
  source_message_resolves = false;
  source_message_matches_session = false;
  source_message_matches_turn = false;
  source_message_is_user = false;
}

abbrev pub turn_in : Option Turn → String → Bool
turn_in none session_id = false
turn_in (some t) session_id = t.session_id == session_id

abbrev pub message_test : (Message → Bool) → Option Message → Bool
message_test p none = false
message_test p (some m) = p m

-- the user's messages of a turn, in a session
unfoldable pub user_messages : Database → (turn_id session_id : String) → List Message
user_messages db turn_id session_id =
    filter (λ m. m.role == "user" && m.session_id == session_id) (list_messages_for_turn db turn_id)

module _ (text : Text) where
  -- where the turn resolves and no message is stored
  unfoldable pub classify_hook : List Message → EvidenceFlags → Provenance
  classify_hook (m ∷ []) flags =
      provenance_result repairable_single_user_message
        "exactly one persisted user message exists in the source turn" flags (some m.id)
  classify_hook messages flags =
      provenance_result ambiguous_source_turn
        ("source turn contains " <> text.decimal (length messages) <> " matching user messages")
        flags none

  -- where the turn resolves and a message is stored
  unfoldable pub classify_message :
      Option Message → (session_id turn_id : String) → EvidenceFlags → Provenance
  classify_message found session_id turn_id flags =
      let flags' = record flags {
        source_message_resolves = is_some found;
        source_message_matches_session = message_test (λ m. m.session_id == session_id) found;
        source_message_matches_turn = message_test (λ m. is_text m.turn_id turn_id) found;
        source_message_is_user = message_test (λ m. m.role == "user") found;
      } in
      if flags'.source_message_resolves && flags'.source_message_matches_session
        && flags'.source_message_matches_turn && flags'.source_message_is_user
      then provenance_result source_complete_valid
          "source session, turn, and user message resolve consistently" flags' none
      else provenance_result invalid_source_message
          "stored source message is not a user message inside the declared source turn" flags' none

  abbrev pub classify_inside :
      Database → (session_id turn_id : String) → Option String → EvidenceFlags → Provenance
  classify_inside db session_id turn_id none flags =
      classify_hook (user_messages db turn_id session_id) flags
  classify_inside db session_id turn_id (some message_id) flags =
      classify_message (get_message db message_id) session_id turn_id flags

  abbrev pub classify_turn :
      Database → (session_id turn_id : String) → Option String → EvidenceFlags → Provenance
  classify_turn db session_id turn_id message_id flags =
      let turn = get_turn db turn_id in
      let flags' = record flags {
        source_turn_resolves = is_some turn;
        source_turn_matches_session = turn_in turn session_id;
      } in
      if turn_in turn session_id
      then classify_inside db session_id turn_id message_id flags'
      else provenance_result invalid_source_turn
          "stored source turn does not resolve inside the source session" flags' none

  abbrev pub classify_ids :
      Database
      → Option ChatSession
      → (session_id turn_id message_id : Option String) → EvidenceFlags
      → Provenance
  classify_ids db session none turn_id message_id flags =
      provenance_result missing_source_session "memory has no persisted source session hook" flags
        none
  classify_ids db none (some session_id) turn_id message_id flags =
      provenance_result invalid_source_session "stored source session does not resolve" flags none
  classify_ids db (some session) (some session_id) none message_id flags =
      provenance_result source_session_only
        "source session resolves, but no source turn or message is persisted" flags none
  classify_ids db (some session) (some session_id) (some turn_id) message_id flags =
      classify_turn db session_id turn_id message_id flags

  -- `_classify_provenance`
  unfoldable pub classify_provenance : Database → MemoryRecord → Option ChatSession → Provenance
  unfolding classify_hook classify_message
  classify_provenance db m source_session =
      classify_ids db source_session m.source_session_id m.source_turn_id m.source_message_id
        (first_flags m source_session)

pub data RecordClass : Type 0 where
  explicit_test_fixture exact_duplicate_review_candidate repairable_source_hook : RecordClass
  sourceable_record retained_non_sourceable_review : RecordClass

pub data RecommendedAction : Type 0 where
  deprecate_explicit_test_fixture none_already_inactive review_only : RecommendedAction
  repair_exact_source_message no_action : RecommendedAction

abbrev by_provenance : ProvenanceClass → RecordClass × RecommendedAction
by_provenance repairable_single_user_message = (repairable_source_hook, repair_exact_source_message)
by_provenance source_complete_valid = (sourceable_record, no_action)
by_provenance _ = (retained_non_sourceable_review, review_only)

-- `_classify_record`
unfoldable pub classify_record :
    MemoryRecord
    → ProvenanceClass
    → (confirmed exact_duplicate : Bool) → RecordClass × RecommendedAction
classify_record m provenance confirmed exact_duplicate =
    if confirmed
    then (if m.status == "active"
        then (explicit_test_fixture, deprecate_explicit_test_fixture)
        else (explicit_test_fixture, none_already_inactive))
    else if exact_duplicate
    then (exact_duplicate_review_candidate, review_only)
    else by_provenance provenance

abbrev pub keys : Fields → List String
keys end = []
keys (field k v rest) = k ∷ keys rest

abbrev pub fixture_metadata_keys : List String
fixture_metadata_keys = "codex_test_dataset_version" ∷ "codex_test_key" ∷ "codex_test_lane" ∷ []

abbrev pub fixture_tags : List String
fixture_tags = "codex-test" ∷ "codex-dirty-memory-v1" ∷ []

abbrev pub fixture_session_prefix : String
fixture_session_prefix = "Codex Test Seed - "

-- `session_title and session_title.startswith(…)`, where `none` is no session or no title
abbrev pub has_prefix : Option String → Bool
has_prefix none = false
has_prefix (some title) = starts_with title fixture_session_prefix

abbrev pub title_of : Option ChatSession → Option String
title_of none = none
title_of (some s) = s.title

pub record FixtureEvidence : Type 0 where
  pub confirmed : Bool
  pub metadata_contract : Bool
  pub tag_contract : Bool
  pub source_session_contract : Bool
  pub matched_metadata_keys : List String
  pub matched_tags : List String
  pub source_session_title : Option String

-- `_explicit_fixture_evidence`; the constant sets are written in sorted order
unfoldable pub explicit_fixture_evidence : MemoryRecord → Option ChatSession → FixtureEvidence
explicit_fixture_evidence m source_session =
    let metadata = subset fixture_metadata_keys (keys m.metadata_json) in
    let tags = subset fixture_tags m.tags_json in
    let session = has_prefix (title_of source_session) in
    record {
      confirmed = metadata && tags && session;
      metadata_contract = metadata;
      tag_contract = tags;
      source_session_contract = session;
      matched_metadata_keys = filter (contains (keys m.metadata_json)) fixture_metadata_keys;
      matched_tags = filter (contains m.tags_json) ("codex-dirty-memory-v1" ∷ "codex-test" ∷ []);
      source_session_title = title_of source_session;
    }
