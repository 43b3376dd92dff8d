-- ===== src/Maintenance/Attempts/Untouched.antt =====
-- What `schedule_summary_repairs` leaves alone.
use llm_api_mind.Base.{String, List, Bool, ◌==◌, ◌&&◌, ◌||◌, filter}
use llm_api_mind.Storage.Models.{MaintenanceJob, Database, is_text}
use llm_api_mind.Storage.SummaryStates.{SessionSummaryState, summary_state}

-- the session's summary is missing or stale, and its latest turn is completed
abbrev pub wants_repair : String → SessionSummaryState → Bool
wants_repair s state =
    state.chat_session.id == s
    && (summary_state state == "missing" || summary_state state == "stale")
    && is_text state.latest_turn_status "completed"

abbrev pub session_jobs : String → Database → List MaintenanceJob
session_jobs s db = filter (λ j. j.session_id == s) db.jobs
