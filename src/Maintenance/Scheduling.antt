-- ===== src/Maintenance/Scheduling.antt =====
-- The scheduling of jobs in backend/app/runtime/maintenance_scheduler.py.
use Prim.Native.String.{◌++◌ as ◌<>◌}
use llm_api_mind.Base.{
  ℕ, ◌+◌, ◌*◌, String, Option, none, some, List, [], ◌∷◌, map, ◌==◌, ◌||◌, not, ltb, if◌then◌else◌,
}
use llm_api_mind.Base.Json.{Json, num, str, arr, of_list, Fields, end, field}
use llm_api_mind.Storage.Models.{MaintenanceJob, Database}
use llm_api_mind.Storage.Jobs.{JobRequest, schedule_session_maintenance_job}
use llm_api_mind.Maintenance.Shared.{
  Settings, Host, number, maintenance_event, record_event, session_idle_maintenance_kind,
  session_history_compaction_kind,
}
use llm_api_mind.Storage.Shared.{Stamp}

-- What one call of `schedule_session_maintenance_job` draws: the id and creation time of a new job,
-- and the time of the update.
pub record Draw : Type 0 where
  pub id : String
  pub created : ℕ
  pub updated : ℕ

-- the ids of the superseded jobs as JSON
abbrev ids_of : List MaintenanceJob → Json
ids_of jobs = arr (of_list (map (λ j. str j.id) jobs))

module _ (host : Host) (settings : Settings) where
  unfoldable pub idle_request :
      (now : ℕ)
      → (session_id trigger_turn_id : String) → (trigger_event_id : Option String) → JobRequest
  idle_request now session_id turn event = record {
    kind = session_idle_maintenance_kind;
    session_id = session_id;
    trigger_turn_id = some turn;
    trigger_event_id = event;
    due_at = now + settings.maintenance_idle_seconds * host.second;
    input_payload = field "idle_seconds" (number host settings.maintenance_idle_seconds) (
        field "trigger" (str "turn.completed") (
          field "steps"
            (arr (of_list (str "sessions.summarize" ∷ str "memory.missed_save_review" ∷ []))) end));
    idempotency_key = none;
  }

  unfoldable pub idle_payload : MaintenanceJob → List MaintenanceJob → Fields
  idle_payload job superseded = field "job_id" (str job.id) (
      field "kind" (str job.kind) (
        field "due_at" (str (host.isoformat job.due_at)) (
          field "idle_seconds" (number host settings.maintenance_idle_seconds)
            (field "superseded_job_ids" (ids_of superseded) end))))

  -- The database after the call, and the job. The event is the last row of its table.
  unfoldable pub schedule_session_idle_maintenance :
      Database
      → (now : ℕ) → (session_id trigger_turn_id : String) → (trigger_event_id : Option String)
      → Draw
      → Stamp
      → Database × MaintenanceJob
  unfolding idle_request idle_payload
  schedule_session_idle_maintenance db now session_id turn event d stamp =
      let (db', job, superseded) =
        schedule_session_maintenance_job db (idle_request now session_id turn event) d.id d.created
          d.updated in
      (
        record_event db' (
            maintenance_event stamp session_id (some turn) "maintenance.job.scheduled"
              (idle_payload job superseded) job.status event),
        job,
      )

-- what a source map tells the scheduler
pub record HistorySize : Type 0 where
  pub status : String
  pub canonical_history_sha256 : Option String
  pub canonical_estimated_tokens : ℕ
  pub model_history_tokens : Option ℕ
  pub external_context_tokens : ℕ
  -- the text of the JSON number
  pub chars_per_token : String

-- `int(model_history_tokens) if model_history_tokens is not None else canonical_history_tokens`
abbrev given_or : Option ℕ → ℕ → ℕ
given_or none n = n
given_or (some m) n = m

unfoldable pub active_history_tokens : HistorySize → ℕ
active_history_tokens h = given_or h.model_history_tokens h.canonical_estimated_tokens

unfoldable pub total_estimated_tokens : HistorySize → ℕ
unfolding active_history_tokens
total_estimated_tokens h = active_history_tokens h + h.external_context_tokens

module _ (host : Host) (settings : Settings) where
  -- the hash of the history, where the guards let the call pass
  unfoldable pub compaction_due : HistorySize → Option String
  unfolding total_estimated_tokens
  compaction_due h =
      if not (settings.history_compaction_mode == "active")
      then none
      else digest h.canonical_history_sha256
    where
      digest : Option String → Option String
      digest none = none
      digest (some sha) =
          if not (h.status == "complete")
            || (sha == "")
            || ltb (total_estimated_tokens h) settings.context_compaction_trigger_tokens
          then none
          else some sha

  unfoldable pub compaction_request :
      HistorySize
      → (sha : String) → (now : ℕ) → (session_id trigger_turn_id : String)
      → (trigger_event_id : Option String) → JobRequest
  unfolding active_history_tokens total_estimated_tokens
  compaction_request h sha now session_id turn event = record {
    kind = session_history_compaction_kind;
    session_id = session_id;
    trigger_turn_id = some turn;
    trigger_event_id = event;
    due_at = now;
    input_payload = field "source_history_sha256" (str sha) (
        field "canonical_history_estimated_tokens" (number host h.canonical_estimated_tokens) (
          field "model_history_estimated_tokens" (number host (active_history_tokens h)) (
            field "external_context_estimated_tokens" (number host h.external_context_tokens) (
              field "total_estimated_tokens" (number host (total_estimated_tokens h)) (
                field "chars_per_token" (num h.chars_per_token) (
                  field "trigger_tokens" (number host settings.context_compaction_trigger_tokens)
                    end))))));
    idempotency_key = some (session_history_compaction_kind <> ":" <> session_id <> ":" <> sha);
  }

  unfoldable pub compaction_payload :
      HistorySize → (sha : String) → MaintenanceJob → List MaintenanceJob → Fields
  unfolding active_history_tokens total_estimated_tokens
  compaction_payload h sha job superseded = field "job_id" (str job.id) (
      field "source_history_sha256" (str sha) (
        field "total_estimated_tokens" (number host (total_estimated_tokens h)) (
          field "canonical_history_estimated_tokens" (number host h.canonical_estimated_tokens) (
            field "model_history_estimated_tokens" (number host (active_history_tokens h)) (
              field "trigger_tokens" (number host settings.context_compaction_trigger_tokens) (
                field "superseded_job_ids" (ids_of superseded)
                  (field "canonical_history_mutation" (str "none") end)))))))

  -- `none` is the call that schedules nothing
  unfoldable pub schedule_history_compaction :
      Database
      → HistorySize
      → (now : ℕ) → (session_id trigger_turn_id : String) → (trigger_event_id : Option String)
      → Draw
      → Stamp
      → Option (Database × MaintenanceJob)
  unfolding compaction_due compaction_request compaction_payload
  schedule_history_compaction db h now session_id turn event d stamp = elim (compaction_due h) [
    | none ↦ none
    | some sha ↦
        let (db', job, superseded) =
          schedule_session_maintenance_job db (compaction_request h sha now session_id turn event)
            d.id d.created d.updated in
        some (
          record_event db' (
              maintenance_event stamp session_id (some turn) "history.compaction.scheduled"
                (compaction_payload h sha job superseded) job.status event),
          job,
        )
  ]
