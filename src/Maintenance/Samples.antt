-- ===== src/Maintenance/Samples.antt =====
-- A pending job of each kind, workers, and ids for the maintenance theorems.
use Prim.Native.String.{◌++◌ as ◌<>◌}
use text.Mathlib.TextLemmas.{length-append}
use Prim.Native.String.{count}
use llm_api_mind.Base.{
  ℕ, zero, suc, ◌+◌, String, none, some, [], ◌∷◌, true, false, ◌==◌, ◌≡◌, ◌≢◌, refl, ap, ◌∙◌, arith,
  Bool-cases, inl, inr, eq_iff, contains,
}
use llm_api_mind.Base.Json.{bool, end, field}
use llm_api_mind.Storage.Models.{MaintenanceJob, Turn, Database}
use llm_api_mind.Storage.Samples.{empty}
use llm_api_mind.Chronology.Samples.{python}
use llm_api_mind.Maintenance.Shared.{Host, Settings, returned, raised}
use llm_api_mind.Maintenance.Runner.{Workers, Ticks}
use llm_api_mind.Maintenance.Repairs.{RepairDraw}
use llm_api_mind.Maintenance.Runs.{Polite}
use llm_api_mind.Maintenance.Scheduled.{Distinct, Fresh}

pub tally : ℕ → String
tally zero = ""
tally (suc n) = "1" <> tally n

count-tally : (n : ℕ) → count (tally n) ≡ n
unfolding tally
count-tally zero = refl
count-tally (suc n) = length-append "1" (tally n) ∙ omega (arith, count-tally n)

-- texts of different lengths differ
by_count : (s t : String) → count s ≢ count t → (s == t) ≡ false
by_count s t h = elim (Bool-cases (s == t)) [
  | inl e ↦ absurd (h (ap count ((eq_iff s t).0 e)))
  | inr e ↦ e
]

-- The n-th draw has an id of n + 4 characters.
abbrev pub draw : ℕ → RepairDraw
draw n = record { clock = 50; drawn = record { id = tally (4 + n); created = 50; updated = 51 } }

pub draw-Distinct : Distinct draw
draw-Distinct n m h =
    by_count (tally (4 + m)) (tally (4 + n))
      (λ e. omega (arith, e, h, count-tally (4 + m), count-tally (4 + n)))

abbrev pub job : String → String → MaintenanceJob
job id kind = record {
  id = id;
  kind = kind;
  status = "pending";
  session_id = "s";
  trigger_turn_id = some "t";
  trigger_event_id = none;
  due_at = 10;
  started_at = none;
  completed_at = none;
  superseded_by_job_id = none;
  idempotency_key = id;
  input_json = end;
  result_json = end;
  error_json = none;
  created_at = 1;
  updated_at = 1;
}

abbrev pub idle_turn : Turn
idle_turn = record {
  id = "t";
  session_id = "s";
  status = "completed";
  model = none;
  started_at = 1;
  completed_at = some 2;
  latency_ms = none;
  error_json = none;
}

-- an idle review and a compaction, both due
abbrev pub database : Database
database = record empty {
  turns = idle_turn ∷ [];
  jobs = job "j1" "session.idle_maintenance" ∷ job "j2" "session.history_compaction" ∷ [];
}

pub database-Fresh : Fresh draw 0 database
database-Fresh m h = elim (Bool-cases (contains ("j1" ∷ "j2" ∷ []) (tally (4 + m)))) [
  | inl e ↦ absurd (
      ground (
        arith,
        e,
        by_count (tally (4 + m)) "j1" (λ c. omega (arith, c, count-tally (4 + m))),
        by_count (tally (4 + m)) "j2" (λ c. omega (arith, c, count-tally (4 + m))),
      ))
  | inr e ↦ e
]

abbrev pub host : Host
host = record { py = python; isoformat = tally; decimal = tally; second = 1 }

abbrev pub settings : Settings
settings = record {
  maintenance_enabled = true;
  maintenance_idle_seconds = 900;
  maintenance_job_batch_size = 5;
  summary_reconcile_enabled = true;
  summary_reconcile_batch_size = 2;
  summary_reconcile_max_attempts = 3;
  summary_reconcile_retry_backoff_seconds = 60;
  context_compaction_trigger_tokens = 1000;
  history_compaction_mode = "active";
}

-- The compaction raises, and the other two succeed.
abbrev pub workers : Workers
workers = record {
  compact = λ db ref. (db, raised "RuntimeError" "no provider");
  summarize = λ db ref.
      (db, returned (record { ok = true; result = end; error_code = none; error_message = none }));
  review = λ db ref. (db, returned (field "ok" (bool true) end));
}

pub workers-Polite : Polite workers
workers-Polite = record {
  compact = λ db ref. refl;
  summarize = λ db ref. refl;
  review = λ db ref. refl;
}

abbrev pub ticks : ℕ → Ticks
ticks n = record {
  started_at = 60 + n;
  started_event = record { id = "e1" <> tally n; at = 60 };
  finished_at = 70 + n;
  finished_event = record { id = "e2" <> tally n; at = 70 };
}
