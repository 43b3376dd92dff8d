-- ===== src/Storage/Samples.antt =====
-- Sample rows for the storage theorems.
use llm_api_mind.Base.{String, none, some, [], ◌∷◌}
use llm_api_mind.Base.Json.{end}
use llm_api_mind.Storage.Models.{CognitiveEvent, Database}
use llm_api_mind.Storage.Sessions.{SummaryInput}
use llm_api_mind.Storage.History.{CompactionInput}
use llm_api_mind.Storage.Jobs.{JobRequest}

abbrev pub empty : Database
empty = record {
  sessions = [];
  summaries = [];
  compactions = [];
  turns = [];
  messages = [];
  traces = [];
  events = [];
  jobs = [];
  memories = [];
  activities = [];
  focuses = [];
  focus_transitions = [];
  intentions = [];
  intention_links = [];
  settings = [];
}

abbrev pub compaction : String → CompactionInput
compaction session_id = record {
  session_id = session_id;
  summary = "summary";
  summary_sha256 = "d1";
  source_history_sha256 = "d2";
  covered_through_turn_id = "t1";
  covered_turn_ids = "t1" ∷ [];
  covered_sources = [];
  source_estimated_tokens = 100;
  summary_estimated_tokens = 10;
  trigger_turn_id = none;
  model = none;
  provider_message_id = none;
  metadata = end;
}

abbrev pub event : String → String → CognitiveEvent
event id session_id = record {
  id = id;
  session_id = session_id;
  turn_id = none;
  seq = 0;
  type = "turn.started";
  source = "runtime";
  actor = "system";
  visibility = "public";
  status = "active";
  parent_event_id = none;
  trace_id = none;
  tool_call_id = none;
  message_id = none;
  payload_json = end;
  created_at = 1;
}

abbrev pub job_request : String → JobRequest
job_request turn_id = record {
  kind = "session.summary";
  session_id = "s";
  trigger_turn_id = some turn_id;
  trigger_event_id = none;
  due_at = 10;
  input_payload = end;
  idempotency_key = none;
}

abbrev pub summary : String → SummaryInput
summary text = record {
  summary = text;
  topics = [];
  decisions = [];
  open_questions = [];
  memory_ids = [];
  message_count = 2;
  source_turn_count = 1;
  last_message_id = none;
  status = "active";
  summary_version = "episodic-v1";
  metadata = end;
}
