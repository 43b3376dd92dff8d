-- ===== src/Maintenance/Shared.antt =====
-- What the maintenance modules share: the kinds and the reference of a job
-- (backend/app/runtime/maintenance_shared.py), the settings that they read, `record_event`
-- (backend/app/runtime/events.py), and Python's exceptions and merge of dicts.
use llm_api_mind.Base.{ℕ, String, Option, none, some, Bool}
use llm_api_mind.Storage.Shared.{Stamp}
use llm_api_mind.Base.Json.{Json, null, num, Fields, end, field, get}
use llm_api_mind.Storage.Models.{CognitiveEvent, MaintenanceJob, Database}
use llm_api_mind.Storage.Events.{add_event}
use llm_api_mind.Chronology.Python.{Python}
use llm_api_mind.Chronology.Messages.{truthy}

abbrev pub session_idle_maintenance_kind : String
session_idle_maintenance_kind = "session.idle_maintenance"

abbrev pub session_summary_repair_kind : String
session_summary_repair_kind = "session.summary_repair"

abbrev pub session_history_compaction_kind : String
session_history_compaction_kind = "session.history_compaction"

pub record MaintenanceJobRef : Type 0 where
  pub id : String
  pub kind : String
  pub session_id : String
  pub trigger_turn_id : Option String
  pub trigger_event_id : Option String
  pub input_payload : Fields

-- the settings that the jobs read
pub record Settings : Type 0 where
  pub maintenance_enabled : Bool
  pub maintenance_idle_seconds : ℕ
  pub maintenance_job_batch_size : ℕ
  pub summary_reconcile_enabled : Bool
  pub summary_reconcile_batch_size : ℕ
  pub summary_reconcile_max_attempts : ℕ
  pub summary_reconcile_retry_backoff_seconds : ℕ
  pub context_compaction_trigger_tokens : ℕ
  pub history_compaction_mode : String

-- What the jobs take from the interpreter besides: `isoformat` of a time stamp, the decimal text of
-- an integer, and the ticks of a second.
pub record Host : Type 0 where
  pub py : Python
  pub isoformat : ℕ → String
  pub decimal : ℕ → String
  pub second : ℕ

abbrev pub number : Host → ℕ → Json
number host n = num (host.decimal n)

-- how a call ends: with a value, or with an exception of this class and text
pub data Attempt (A : Type 0) : Type 0 where
  returned : A → Attempt A
  raised : String → String → Attempt A

-- `d.get(key)` as a truth value
unfoldable pub holds : Python → Fields → String → Bool
holds py d key = truthy py (or_null (get d key))
  where
    or_null : Option Json → Json
    or_null none = null
    or_null (some v) = v

-- `{**d, ...}` where no key of the second dict stands in the first
abbrev pub merged : Fields → Fields → Fields
merged end e = e
merged (field k v d) e = field k v (merged d e)

-- The row that `record_event` of a maintenance job writes, before its sequence number.
unfoldable pub maintenance_event :
    Stamp
    → (session_id : String) → (turn_id : Option String) → (type : String) → (payload : Fields)
    → (status : String) → (parent : Option String) → CognitiveEvent
maintenance_event stamp session_id turn_id type payload status parent = record {
  id = stamp.id;
  session_id = session_id;
  turn_id = turn_id;
  seq = 0;
  type = type;
  source = "maintenance";
  actor = "backend";
  visibility = "debug";
  status = status;
  parent_event_id = parent;
  trace_id = none;
  tool_call_id = none;
  message_id = none;
  payload_json = payload;
  created_at = stamp.at;
}

unfoldable pub record_event : Database → CognitiveEvent → Database
record_event db event = add_event db event none

unfoldable pub job_ref : MaintenanceJob → MaintenanceJobRef
job_ref job = record {
  id = job.id;
  kind = job.kind;
  session_id = job.session_id;
  trigger_turn_id = job.trigger_turn_id;
  trigger_event_id = job.trigger_event_id;
  input_payload = job.input_json;
}
