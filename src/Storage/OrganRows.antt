-- ===== src/Storage/OrganRows.antt =====
-- The rows of the focus and intention organs in backend/app/storage/models.py. An intensity is kept
-- as the text of its number.
use llm_api_mind.Base.{ℕ, String, Option}
use llm_api_mind.Base.Json.{Fields}

pub record FocusRecord : Type 0 where
  pub id : String
  pub owner_profile_id : String
  pub status : String
  pub focus_object : String
  pub focus_type : String
  pub intensity : String
  pub duration_policy : Option String
  pub reason : String
  pub resolution : Option String
  pub impossible_reason : Option String
  pub created_by : String
  pub source_session_id : Option String
  pub source_turn_id : Option String
  pub source_message_id : Option String
  pub created_at : ℕ
  pub updated_at : ℕ
  pub closed_at : Option ℕ
  pub metadata_json : Fields

pub record FocusTransition : Type 0 where
  pub id : String
  pub owner_profile_id : String
  pub from_focus_id : Option String
  pub to_focus_id : Option String
  pub relation : String
  pub reason : Option String
  pub source_session_id : Option String
  pub source_turn_id : Option String
  pub source_message_id : Option String
  pub created_at : ℕ
  pub metadata_json : Fields

pub record IntentionRecord : Type 0 where
  pub id : String
  pub owner_profile_id : String
  pub status : String
  pub desire : String
  pub origin : String
  pub horizon : Option String
  pub intensity : String
  pub autonomy_level : String
  pub reason : String
  pub next_possible_reflection : Option String
  pub last_reviewed_at : Option ℕ
  pub next_review_at : Option ℕ
  pub review_interval_seconds : Option ℕ
  pub review_count : ℕ
  pub resolution : Option String
  pub impossible_reason : Option String
  pub created_by : String
  pub source_session_id : Option String
  pub source_turn_id : Option String
  pub source_message_id : Option String
  pub source_focus_id : Option String
  pub created_at : ℕ
  pub updated_at : ℕ
  pub closed_at : Option ℕ
  pub metadata_json : Fields

pub record IntentionLink : Type 0 where
  pub id : String
  pub intention_id : String
  pub target_type : String
  pub target_id : String
  pub relation : String
  pub created_at : ℕ
  pub metadata_json : Fields
