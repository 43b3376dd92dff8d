-- ===== src/Storage/Models.antt =====
-- The rows of backend/app/storage/models.py. A time stamp is a number of ticks; an id and a
-- column of JSON are what the program stores.
use llm_api_mind.Base.{ℕ, String, Option, none, some, List, Bool, false, ◌==◌}
use llm_api_mind.Base.Json.{Json, Fields}
use llm_api_mind.Storage.OrganRows.{FocusRecord, FocusTransition, IntentionRecord, IntentionLink}

pub record ChatSession : Type 0 where
  pub id : String
  pub title : Option String
  pub created_at : ℕ
  pub updated_at : ℕ
  pub provider_history_json : Json
  pub metadata_json : Fields

pub record SessionSummary : Type 0 where
  pub id : String
  pub session_id : String
  pub summary : String
  pub topics_json : List String
  pub decisions_json : List String
  pub open_questions_json : List String
  pub memory_ids_json : List String
  pub message_count : ℕ
  pub source_turn_count : ℕ
  pub last_message_id : Option String
  pub status : String
  pub summary_version : String
  pub created_at : ℕ
  pub updated_at : ℕ
  pub metadata_json : Fields

pub record HistoryCompaction : Type 0 where
  pub id : String
  pub session_id : String
  pub generation : ℕ
  pub status : String
  pub summary : String
  pub summary_sha256 : String
  pub source_history_sha256 : String
  pub covered_through_turn_id : String
  pub trigger_turn_id : Option String
  pub previous_compaction_id : Option String
  pub covered_turn_ids_json : List String
  pub covered_sources_json : List Fields
  pub source_estimated_tokens : ℕ
  pub summary_estimated_tokens : ℕ
  pub model : Option String
  pub provider_message_id : Option String
  pub metadata_json : Fields
  pub created_at : ℕ
  pub updated_at : ℕ

pub record Turn : Type 0 where
  pub id : String
  pub session_id : String
  pub status : String
  pub model : Option String
  pub started_at : ℕ
  pub completed_at : Option ℕ
  pub latency_ms : Option ℕ
  pub error_json : Option Fields

pub record Message : Type 0 where
  pub id : String
  pub session_id : String
  pub turn_id : Option String
  pub role : String
  pub content : String
  pub provider_message_id : Option String
  pub raw_content_json : Option Json
  pub created_at : ℕ
  pub metadata_json : Fields

pub record Trace : Type 0 where
  pub id : String
  pub session_id : String
  pub turn_id : Option String
  pub kind : String
  pub payload_json : Fields
  pub created_at : ℕ

pub record CognitiveEvent : Type 0 where
  pub id : String
  pub session_id : String
  pub turn_id : Option String
  pub seq : ℕ
  pub type : String
  pub source : String
  pub actor : String
  pub visibility : String
  pub status : String
  pub parent_event_id : Option String
  pub trace_id : Option String
  pub tool_call_id : Option String
  pub message_id : Option String
  pub payload_json : Fields
  pub created_at : ℕ

pub record MaintenanceJob : Type 0 where
  pub id : String
  pub kind : String
  pub status : String
  pub session_id : String
  pub trigger_turn_id : Option String
  pub trigger_event_id : Option String
  pub due_at : ℕ
  pub started_at : Option ℕ
  pub completed_at : Option ℕ
  pub superseded_by_job_id : Option String
  pub idempotency_key : String
  pub input_json : Fields
  pub result_json : Fields
  pub error_json : Option Fields
  pub created_at : ℕ
  pub updated_at : ℕ

-- A confidence or a salience is kept as the text of its number.
pub record MemoryRecord : Type 0 where
  pub id : String
  pub memory_type : String
  pub scope : String
  pub status : String
  pub content : String
  pub reason_for_storage : String
  pub expected_future_use : Option String
  pub confidence : String
  pub salience : String
  pub created_by : String
  pub source_session_id : Option String
  pub source_turn_id : Option String
  pub source_message_id : Option String
  pub tags_json : List String
  pub metadata_json : Fields
  pub usage_count : ℕ
  pub created_at : ℕ
  pub updated_at : ℕ
  pub last_used_at : Option ℕ

pub record MemoryActivity : Type 0 where
  pub id : String
  pub memory_id : String
  pub activity_kind : String
  pub occurred_at : ℕ
  pub profile_id : Option String
  pub actor : String
  pub source : String
  pub session_id : Option String
  pub turn_id : Option String
  pub message_id : Option String
  pub trace_id : Option String
  pub eligible_for_recent : Bool
  pub metadata_json : Fields

pub record AppSetting : Type 0 where
  pub key : String
  pub value_json : Fields
  pub updated_at : ℕ

-- The tables, each with its rows in the order of insertion.
pub record Database : Type 0 where
  pub sessions : List ChatSession
  pub summaries : List SessionSummary
  pub compactions : List HistoryCompaction
  pub turns : List Turn
  pub messages : List Message
  pub traces : List Trace
  pub events : List CognitiveEvent
  pub jobs : List MaintenanceJob
  pub memories : List MemoryRecord
  pub activities : List MemoryActivity
  pub focuses : List FocusRecord
  pub focus_transitions : List FocusTransition
  pub intentions : List IntentionRecord
  pub intention_links : List IntentionLink
  pub settings : List AppSetting

-- `column == value` where the column may be NULL
abbrev pub is_text : Option String → String → Bool
is_text none v = false
is_text (some t) v = t == v
