-- ===== src/Maintenance/System.antt =====
-- The table of jobs under every order of scheduling, runs and other writes.
use llm_api_mind.Base.{
  ℕ, String, some, false, true, ◌≡◌, refl, sym, ◌∙◌, ap, subst, contains, Option-cases, inl, inr,
}
use llm_api_mind.Base.Json.{Fields}
use llm_api_mind.Storage.Models.{MaintenanceJob, Database}
use llm_api_mind.Storage.Jobs.{JobRequest, get_maintenance_job, schedule_session_maintenance_job}
use llm_api_mind.Maintenance.Shared.{Host}
use llm_api_mind.Maintenance.Runner.{Workers, Ticks, run_maintenance_job}
use llm_api_mind.Maintenance.Lifecycle.{ended, ended_stays, found, job_ids}
use llm_api_mind.Maintenance.Moves.{IsKeyed, Moves, Moves-trans, same-Moves, start_unknown}
use llm_api_mind.Maintenance.Runs.{Polite}
use llm_api_mind.Maintenance.Batch.{earlier, run_any, run_refused}
use llm_api_mind.Maintenance.Scheduled.{schedule-Scheduled}

-- What the program does to the database: it schedules a job under a new id, runs a job, or writes to
-- other tables.
pub data Act (host : Host) (w : Workers) (a b : Database) : Type 0 where
  schedules :
      (r : JobRequest) (id : String) (created now : ℕ)
      → contains (job_ids a.jobs) id ≡ false
      → b ≡ (schedule_session_maintenance_job a r id created now).0
      → Act host w a b
  runs :
      (id : String) (t : Ticks) (report : Fields)
      → run_maintenance_job host w a id t ≡ some (b, report)
      → Act host w a b
  writes : b.jobs ≡ a.jobs → Act host w a b

pub data Acts (host : Host) (w : Workers) (a : Database) : Database → Type 0 where
  none_yet : Acts host w a a
  then_act : {b c : Database} → Acts host w a b → Act host w b c → Acts host w a c

some-inj : {A : Type 0} {x y : A} → some x ≡ some y → x ≡ y
some-inj e = cc e

module _ (host : Host) (w : Workers) (polite : Polite w) where
  run-Moves :
      (a : Database) (id : String) (t : Ticks)
      → IsKeyed a
      → (b : Database) × (r : Fields) × (run_maintenance_job host w a id t ≡ some (b, r))
        × Moves a b
  run-Moves a id t k = elim (Option-cases (found id a.jobs)) [
    | inl absent ↦ (
      a,
      _,
      run_refused host w a id t (start_unknown a id t.started_at absent),
      same-Moves a a k refl,
    )
    | inr (j, e) ↦
        let (b, r, ran, moved, _) = run_any host w polite a id t j k e in (b, r, ran, moved)
  ]

  Act-Moves : (a b : Database) → IsKeyed a → Act host w a b → Moves a b
  Act-Moves a b k (schedules r id created now fresh e) =
      subst (Moves a) (sym e) (schedule-Scheduled a r id created now k fresh).moved
  Act-Moves a b k (runs id t report e) =
      let (c, r, ran, moved) = run-Moves a id t k in
      subst (Moves a) (ap (λ x. x.0) (some-inj (sym ran ∙ e))) moved
  Act-Moves a b k (writes e) = same-Moves a b k e

  Acts-Moves : {a b : Database} → IsKeyed a → Acts host w a b → Moves a b
  Acts-Moves {a} k none_yet = same-Moves a a k refl
  Acts-Moves {a} k (then_act {b} {c} before act) =
      let m = Acts-Moves k before in Moves-trans a b c m (Act-Moves b c m.keyed act)

  -- Where no two jobs share an id and the workers write no job, a job that is completed, failed,
  -- skipped or superseded is still in the table, with the same status, after every sequence of
  -- scheduled jobs under new ids, of runs, and of writes to other tables.
  pub ended_job_stays :
      {a b : Database} (id : String) (i : MaintenanceJob)
      → IsKeyed a
      → get_maintenance_job a id ≡ some i
      → contains ended i.status ≡ true
      → Acts host w a b
      → (j : MaintenanceJob) × (get_maintenance_job b id ≡ some j) × (j.status ≡ i.status)
  unfolding get_maintenance_job
  ended_job_stays {a} {b} id i k e over acts =
      let m = Acts-Moves k acts in
      let (j, there, life) = earlier id a.jobs b.jobs i m.evolves e in
      (j, there, ended_stays over life)
