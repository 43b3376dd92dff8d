-- ===== src/Maintenance/Runs.antt =====
-- Every run of a pending job ends, and moves jobs only along their life.
use llm_api_mind.Base.{
  ℕ, String, Option, none, some, true, false, ◌≡◌, refl, sym, subst, ◌∙◌, inl, inr, ◌==◌, contains,
  both_branches, Option-cases, find, Bool, not, ◌&&◌,
}
use Prim.Native.String.{◌++◌ as ◌<>◌}
use llm_api_mind.Base.Json.{Fields, end, get, field, str}
use llm_api_mind.Storage.SummaryStates.{SessionSummaryState, list_session_summary_states}
use llm_api_mind.Storage.Models.{Database, is_text}
use llm_api_mind.Maintenance.Shared.{
  session_idle_maintenance_kind, Host, MaintenanceJobRef, Attempt, returned, raised, holds,
}
use llm_api_mind.Maintenance.Idle.{
  Body, on_return, run_idle_summary, run_summary_repair, repair_state, skipped, is_str,
  verify_session_still_idle,
}
use llm_api_mind.Maintenance.Runner.{
  settled, Workers, Ticks, Verdict, idle_result, completed_if, skipped_with, decided, after,
  run_idle, finish_job, failure, run_kind, run_started, report,
}
use llm_api_mind.Maintenance.Lifecycle.{final, found}
use llm_api_mind.Maintenance.Moves.{
  IsKeyed, Moves, Moves-trans, same-Moves, IsRunning, IsFinished, finish_running,
}

-- a body writes no job
abbrev pub KeepsJobs : {A : Type 0} → Body A → Type 0
KeepsJobs f = (db : Database) (ref : MaintenanceJobRef) → (f db ref).0.jobs ≡ db.jobs

pub record Polite (w : Workers) : Type 0 where
  pub compact : KeepsJobs w.compact
  pub summarize : KeepsJobs w.summarize
  pub review : KeepsJobs w.review

-- A body leaves the jobs alone, and what it decides is a final status.
Settles : Database → Database × Attempt Verdict → Type 0
Settles db (db', returned v) = (db'.jobs ≡ db.jobs) × (contains final v.status ≡ true)
Settles db (db', raised name message) = db'.jobs ≡ db.jobs

skip-Settles : (db : Database) (r : Fields) → Settles db (db, returned (skipped_with r))
unfolding Settles
skip-Settles db r = (refl, refl)

completed_if-final : (b : Bool) (r : Fields) → contains final (completed_if b r).status ≡ true
completed_if-final true r = refl
completed_if-final false r = refl

decided-Settles :
    {A : Type 0} (f : A → Verdict) (db : Database) (m : Database × Attempt A)
    → ((a : A) → contains final (f a).status ≡ true)
    → m.0.jobs ≡ db.jobs
    → Settles db (decided f m)
unfolding Settles
decided-Settles f db (db', returned a) h e = (e, h a)
decided-Settles f db (db', raised x y) h e = e

on_return-jobs :
    {A B : Type 0} (f : A → B) (db : Database) (m : Database × Attempt A)
    → m.0.jobs ≡ db.jobs
    → (on_return f m).0.jobs ≡ db.jobs
on_return-jobs f db (db', returned a) e = e
on_return-jobs f db (db', raised x y) e = e

after-Settles :
    {A : Type 0} (db : Database) (m : Database × Attempt A)
    → (f : Database → A → Database × Attempt Verdict) → m.0.jobs ≡ db.jobs
    → ((db' : Database) (a : A) → db'.jobs ≡ db.jobs → Settles db (f db' a))
    → Settles db (after m f)
unfolding Settles
after-Settles db (db', returned a) f e h = h db' a e
after-Settles db (db', raised x y) f e h = e

-- The call returned a report with a final status, and the job is in the table with that status.
pub record Ends (db : Database) (id : String) (at : ℕ) (r : Option (Database × Fields))
    : Type 0 where
  pub after_run : Database
  pub status : String
  pub result : Fields
  pub reported : r ≡ some (after_run, report id status result)
  pub is_final : contains final status ≡ true
  pub moved : Moves db after_run
  pub finished : IsFinished id status at after_run

-- a verdict on a running job whose table the body has left alone
finish-Ends :
    (t : Ticks) (ref : MaintenanceJobRef) (v : Verdict) (db db' : Database)
    → IsKeyed db
    → IsRunning ref.id db
    → db'.jobs ≡ db.jobs
    → contains final v.status ≡ true
    → Ends db ref.id t.finished_at (finish_job t ref v db')
finish-Ends t ref v db db' k (j, e, r) same h =
    let idle = same-Moves db db' k same in
    let (end_db, reported, moved, finished) =
      finish_running t ref v db' idle.keyed
        (j, subst (λ l. found ref.id l ≡ some j) (sym same) e, r) h in
    record {
      after_run = end_db;
      status = v.status;
      result = v.result;
      reported = reported;
      is_final = h;
      moved = Moves-trans db db' end_db idle moved;
      finished = finished;
    }

settled-Ends :
    (t : Ticks) (ref : MaintenanceJobRef) (db : Database)
    → IsKeyed db
    → IsRunning ref.id db
    → (m : Database × Attempt Verdict) → Settles db m
    → Ends db ref.id t.finished_at (settled t ref m)
unfolding Settles failure
settled-Ends t ref db k r (db', returned v) s =
    let ends = finish-Ends t ref v db db' k r s.0 s.1 in
    record {
      after_run = ends.after_run;
      status = ends.status;
      result = ends.result;
      reported = rw ends.reported refl;
      is_final = ends.is_final;
      moved = ends.moved;
      finished = ends.finished;
    }
settled-Ends t ref db k r (db', raised name message) s =
    finish-Ends t ref (failure name message) db db' k r s refl

module _ (host : Host) (w : Workers) (polite : Polite w) where
  idle_summary-jobs :
      (db : Database) (ref : MaintenanceJobRef)
      → (run_idle_summary w.summarize db ref).0.jobs ≡ db.jobs
  unfolding run_idle_summary
  idle_summary-jobs db ref = on_return-jobs _ db (w.summarize db ref) (polite.summarize db ref)

  repair-jobs :
      (db : Database) (ref : MaintenanceJobRef)
      → (run_summary_repair host w.summarize db ref).0.jobs ≡ db.jobs
  unfolding run_summary_repair repair_state
  repair-jobs db ref =
      elim (Option-cases (
        find (λ s. s.chat_session.id == ref.session_id)
          (list_session_summary_states db none none))) [
            | inl absent ↦ rw (run_summary_repair, absent) refl
            | inr (state, there) ↦ rw (run_summary_repair, there) (at_message state)
          ]
    where
      IsKept : Database × Attempt Fields → Type 0
      IsKept m = m.0.jobs ≡ db.jobs

      guarded :
          (state : SessionSummaryState) (last : String)
          → IsKept (repair_state host w.summarize db ref state last)
      guarded state last =
          both_branches IsKept (not (is_text state.latest_turn_status "completed")) refl (
            both_branches IsKept
              (not (is_str (get ref.input_payload "target_last_message_id") last)) refl
              (on_return-jobs _ db (run_idle_summary w.summarize db ref)
                (idle_summary-jobs db ref)))

      at_message :
          (state : SessionSummaryState)
          → IsKept (elim state.last_message_id [
            | none ↦ (db, returned (skipped "session_is_empty" end))
            | some last ↦ repair_state host w.summarize db ref state last
          ])
      at_message state = elim (Option-cases state.last_message_id) [
        | inl empty ↦ rw empty refl
        | inr (last, there) ↦ rw there (guarded state last)
      ]

  run_idle-Settles : (db : Database) (ref : MaintenanceJobRef) → Settles db (run_idle host w db ref)
  unfolding run_idle
  run_idle-Settles db ref =
      after-Settles db (run_idle_summary w.summarize db ref) _ (idle_summary-jobs db ref)
        (λ db' summary e.
          decided-Settles _ db (w.review db' ref)
            (λ reviewed.
              completed_if-final (holds host.py summary "ok" && holds host.py reviewed "ok")
                (idle_result summary reviewed))
            (polite.review db' ref ∙ e))

  run_kind-Settles : (db : Database) (ref : MaintenanceJobRef) → Settles db (run_kind host w db ref)
  unfolding run_kind
  run_kind-Settles db ref =
      both_branches (Settles db) _ (by_ok (w.compact db ref) (polite.compact db ref)) (
        both_branches (Settles db) _
          (by_ok (run_summary_repair host w.summarize db ref) (repair-jobs db ref))
          (both_branches (Settles db) (not (ref.kind == session_idle_maintenance_kind))
            (skip-Settles db
              (field "reason" (str ("Unknown maintenance job kind: " <> ref.kind)) end))
            (both_branches (Settles db)
              (not (holds host.py (verify_session_still_idle db ref) "idle"))
              (skip-Settles db (verify_session_still_idle db ref)) (run_idle-Settles db ref))))
    where
      by_ok :
          (m : Database × Attempt Fields)
          → m.0.jobs ≡ db.jobs
          → Settles db (decided (λ r. completed_if (holds host.py r "ok") r) m)
      by_ok m e = decided-Settles _ db m (λ r. completed_if-final (holds host.py r "ok") r) e

  -- what a run that started a job comes to
  pub run_started-Ends :
      (t : Ticks) (ref : MaintenanceJobRef) (db : Database)
      → IsKeyed db
      → IsRunning ref.id db
      → Ends db ref.id t.finished_at (run_started host w t ref db)
  unfolding run_started
  run_started-Ends t ref db k running =
      settled-Ends t ref db k running (run_kind host w db ref) (run_kind-Settles db ref)
