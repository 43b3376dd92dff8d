-- ===== src/Provenance/Samples.antt =====
-- A sample memory whose source message is missing, and the helpers on texts.
use llm_api_mind.Base.{none, some, [], ◌∷◌, true, ◌==◌}
use llm_api_mind.Base.Json.{arr, nil, end}
use llm_api_mind.Storage.Models.{ChatSession, Turn, Message, MemoryRecord, Database}
use llm_api_mind.Provenance.Text.{Text}
use llm_api_mind.Provenance.Repair.{MutationRequest}

abbrev pub plain_text : Text
plain_text = record {
  casefold_words = λ t. t ∷ [];
  join_spaces = λ words. "joined";
  join_lines = λ lines. "lines";
  sha256 = λ t. t;
  is_blank = λ t. t == " ";
  decimal = λ n. "n";
}

abbrev pub chat : ChatSession
chat = record {
  id = "s";
  title = none;
  created_at = 1;
  updated_at = 1;
  provider_history_json = arr nil;
  metadata_json = end;
}

abbrev pub turn : Turn
turn = record {
  id = "t";
  session_id = "s";
  status = "completed";
  model = none;
  started_at = 1;
  completed_at = some 2;
  latency_ms = none;
  error_json = none;
}

abbrev pub message : Message
message = record {
  id = "m";
  session_id = "s";
  turn_id = some "t";
  role = "user";
  content = "hi";
  provider_message_id = none;
  raw_content_json = none;
  created_at = 1;
  metadata_json = end;
}

abbrev pub memory : MemoryRecord
memory = record {
  id = "mem";
  memory_type = "fact";
  scope = "user";
  status = "active";
  content = "likes tea";
  reason_for_storage = "said so";
  expected_future_use = none;
  confidence = "0.9";
  salience = "0.5";
  created_by = "model";
  source_session_id = some "s";
  source_turn_id = some "t";
  source_message_id = none;
  tags_json = [];
  metadata_json = end;
  usage_count = 0;
  created_at = 3;
  updated_at = 3;
  last_used_at = none;
}

abbrev pub database : Database
database = record {
  sessions = chat ∷ [];
  summaries = [];
  compactions = [];
  turns = turn ∷ [];
  messages = message ∷ [];
  traces = [];
  events = [];
  jobs = [];
  memories = memory ∷ [];
  activities = [];
  focuses = [];
  focus_transitions = [];
  intentions = [];
  intention_links = [];
  settings = [];
}

abbrev pub preview : MutationRequest
preview = record { dry_run = true; expected_candidate_digest = none; backup_reference = none }

-- the memory with its source message
abbrev pub sourced : MemoryRecord
sourced = record memory { source_message_id = some "m" }
