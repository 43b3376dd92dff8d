-- ===== src/Maintenance/Repairs.antt =====
-- `schedule_summary_repairs` of backend/app/runtime/maintenance_scheduler.py.
use Prim.Native.Nat.{◌^◌}
use Prim.Native.String.{◌++◌ as ◌<>◌}
use llm_api_mind.Base.{
  ℕ, zero, suc, ◌+◌, ◌-◌, ◌*◌, String, Option, none, some, List, [], ◌∷◌, ◌++◌, map, Bool, false,
  ◌||◌, not, ltb, leb, length, contains, if◌then◌else◌,
}
use llm_api_mind.Base.Json.{str, end, field}
use llm_api_mind.Storage.Models.{MaintenanceJob, Database, is_text}
use llm_api_mind.Storage.Jobs.{JobRequest, schedule_session_maintenance_job, get_maintenance_job}
use llm_api_mind.Storage.SummaryStates.{
  SessionSummaryState, summary_state, list_session_summary_states,
}
use llm_api_mind.Maintenance.Shared.{Settings, Host, number, session_summary_repair_kind}
use llm_api_mind.Maintenance.Idle.{matching_jobs, needs_summary}
use llm_api_mind.Maintenance.Scheduling.{Draw}

-- whether a job of this status keeps its target from another attempt
abbrev pub is_live : MaintenanceJob → Bool
is_live j = contains ("pending" ∷ "running" ∷ "completed" ∷ []) j.status

abbrev pub any {ℓ} : {A : Type ℓ} → (A → Bool) → List A → Bool
any p [] = false
any p (x ∷ l) = p x || any p l

-- `limit or settings.summary_reconcile_batch_size`, where 0 counts as absent
abbrev pub given_limit : Option ℕ → ℕ → ℕ
given_limit none n = n
given_limit (some zero) n = n
given_limit (some (suc k)) n = suc k

-- what one round draws: the clock of `due_at`, and the draw of the call
pub record RepairDraw : Type 0 where
  pub clock : ℕ
  pub drawn : Draw

module _ (host : Host) (settings : Settings) where
  -- the seconds that an attempt waits
  unfoldable pub delay : (attempt : ℕ) → ℕ
  delay attempt =
      if ltb 1 attempt
      then settings.summary_reconcile_retry_backoff_seconds * 2 ^ (attempt - 2)
      else 0

  -- the target with the number of its next attempt, where the jobs of that target allow one
  unfoldable pub next_attempt : List MaintenanceJob → Option String → Option (String × ℕ)
  next_attempt jobs none = none
  next_attempt jobs (some last) =
      if any is_live jobs
      then none
      else if ltb settings.summary_reconcile_max_attempts (length jobs + 1)
      then none
      else some (last, length jobs + 1)

  -- the number of the attempt that a state is due for, with its target
  unfoldable pub due_attempt : Database → SessionSummaryState → Option (String × ℕ)
  unfolding matching_jobs summary_state next_attempt
  due_attempt db state =
      if not (needs_summary (summary_state state))
      then none
      else if not (is_text state.latest_turn_status "completed")
      then none
      else next_attempt (matching_jobs db state) state.last_message_id

  unfoldable pub repair_request :
      SessionSummaryState → (last : String) → (attempt clock : ℕ) → JobRequest
  unfolding delay summary_state
  repair_request state last attempt clock = record {
    kind = session_summary_repair_kind;
    session_id = state.chat_session.id;
    trigger_turn_id = state.latest_turn_id;
    trigger_event_id = none;
    due_at = clock + delay attempt * host.second;
    input_payload = field "target_last_message_id" (str last) (
        field "summary_state" (str (summary_state state)) (
          field "attempt" (number host attempt) (
            field "max_attempts" (number host settings.summary_reconcile_max_attempts)
              (field "source" (str "summary_reconciler") end))));
    idempotency_key = some (
        session_summary_repair_kind
        <> ":"
        <> state.chat_session.id
        <> ":"
        <> last
        <> ":attempt:"
        <> host.decimal attempt);
  }

  module _ (draw : ℕ → RepairDraw) (batch_limit : ℕ) where
    -- The loop over the states; the draws are numbered by the jobs that stand in `scheduled`.
    unfoldable pub repair_states :
        Database → List MaintenanceJob → List SessionSummaryState → Database × List MaintenanceJob
    unfolding due_attempt repair_request
    repair_states db scheduled [] = (db, scheduled)
    repair_states db scheduled (state ∷ states) =
        let again = λ (d : Database) (jobs : List MaintenanceJob). repair_states d jobs states in
        if leb batch_limit (length scheduled)
        then (db, scheduled)
        else elim (due_attempt db state) [
          | none ↦ again db scheduled
          | some (last, attempt) ↦
              let drawn : RepairDraw = draw (length scheduled) in
              let (db', job, _) =
                schedule_session_maintenance_job db (repair_request state last attempt drawn.clock)
                  drawn.drawn.id drawn.drawn.created drawn.drawn.updated in
              again db' (scheduled ++ job ∷ [])
        ]

  -- `db.refresh(job)`
  abbrev refreshed : Database → MaintenanceJob → MaintenanceJob
  refreshed db job = elim (get_maintenance_job db job.id) [ none ↦ job | some row ↦ row ]

  unfoldable pub schedule_summary_repairs :
      Database
      → (limit : Option ℕ) → (exclude_session_id : Option String) → (draw : ℕ → RepairDraw)
      → Database × List MaintenanceJob
  unfolding repair_states
  schedule_summary_repairs db limit exclude draw =
      if not settings.maintenance_enabled || not settings.summary_reconcile_enabled
      then (db, [])
      else (let (db', scheduled) =
            repair_states draw (given_limit limit settings.summary_reconcile_batch_size) db []
              (list_session_summary_states db exclude none) in
          (db', map (refreshed db') scheduled))
