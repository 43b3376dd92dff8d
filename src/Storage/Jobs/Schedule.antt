-- ===== src/Storage/Jobs/Schedule.antt =====
-- What `schedule_session_maintenance_job` leaves in the table.
use llm_api_mind.Base.{
  ℕ, String, none, some, List, [], ◌∷◌, ◌++◌, map, sym, subst, false, ◌≡◌, refl, filter-append,
  filter-keep, filter-reject, find-hit, Bool-cases, inl, inr, Option-cases, ap, ◌∙◌, arith, filter,
  ◌==◌, eq_refl,
}
use llm_api_mind.Storage.Models.{MaintenanceJob, Database}
use llm_api_mind.Storage.Jobs.{
  JobRequest, resolved_key, find_by_key, pending_jobs, is_pending_for, supersede_job, new_job,
  schedule_session_maintenance_job,
}

-- the pending jobs that a request competes with
abbrev pub pending_for : JobRequest → List MaintenanceJob → List MaintenanceJob
pending_for r = filter (is_pending_for r)

superseded-IsDone :
    (r : JobRequest) (id : String) (now : ℕ) (j : MaintenanceJob)
    → is_pending_for r (supersede_job r id now j) ≡ false
unfolding supersede_job
superseded-IsDone r id now j = elim (Bool-cases (is_pending_for r j)) [
  | inl e ↦ rw e (unfold is_pending_for in ground arith)
  | inr e ↦ rw e e
]

none_pending :
    (r : JobRequest) (id : String) (now : ℕ) (jobs : List MaintenanceJob)
    → pending_for r (map (supersede_job r id now) jobs) ≡ []
none_pending r id now [] = refl
none_pending r id now (j ∷ jobs) =
    filter-reject (is_pending_for r) (supersede_job r id now j) (map (supersede_job r id now) jobs)
      (superseded-IsDone r id now j)
    ∙ none_pending r id now jobs

find-append :
    (key : String) (l k : List MaintenanceJob)
    → find_by_key l key ≡ none
    → find_by_key (l ++ k) key ≡ find_by_key k key
unfolding find_by_key
find-append key [] k h = refl
find-append key (j ∷ l) k h = ground (arith, find-append key l k)

find-supersede :
    (r : JobRequest) (id : String) (now : ℕ) (key : String) (jobs : List MaintenanceJob)
    → find_by_key jobs key ≡ none
    → find_by_key (map (supersede_job r id now) jobs) key ≡ none
unfolding find_by_key supersede_job
find-supersede r id now key [] h = refl
find-supersede r id now key (j ∷ jobs) h = ground (arith, find-supersede r id now key jobs)

new_job-IsPending :
    (r : JobRequest) (id : String) (created : ℕ)
    → pending_for r (new_job r id created ∷ []) ≡ new_job r id created ∷ []
new_job-IsPending r id created = filter-keep (is_pending_for r) (new_job r id created) [] (
    unfold new_job in unfold is_pending_for in ground (arith, eq_refl r.session_id, eq_refl r.kind))

find-new_job :
    (r : JobRequest) (id : String) (created : ℕ)
    → find_by_key (new_job r id created ∷ []) (resolved_key r) ≡ some (new_job r id created)
unfolding new_job find_by_key
find-new_job r id created =
    find-hit (λ j. j.idempotency_key == resolved_key r) (new_job r id created) []
      (eq_refl (resolved_key r))

-- The call on a table without the key.
pub schedule_new :
    (db : Database) (r : JobRequest) (id : String) (created now : ℕ)
    → find_by_key db.jobs (resolved_key r) ≡ none
    → schedule_session_maintenance_job db r id created now ≡ (
      record db { jobs = map (supersede_job r id now) db.jobs ++ new_job r id created ∷ [] },
      new_job r id created,
      map (supersede_job r id now) (pending_jobs r db.jobs),
    )
unfolding schedule_session_maintenance_job
schedule_new db r id created now h = rw (schedule_session_maintenance_job, h) refl

-- The call on a table with the key.
pub schedule_known :
    (db : Database) (r : JobRequest) (id : String) (created now : ℕ) {job : MaintenanceJob}
    → find_by_key db.jobs (resolved_key r) ≡ some job
    → schedule_session_maintenance_job db r id created now ≡ (db, job, [])
unfolding schedule_session_maintenance_job
schedule_known db r id created now h = rw (schedule_session_maintenance_job, h) refl

module _ (db : Database) (r : JobRequest) (id : String) (created now : ℕ) where
  -- If no job has the request's key, then afterwards the new job is the only pending one of its
  -- session and kind.
  pub only_pending :
      find_by_key db.jobs (resolved_key r) ≡ none
      → pending_for r (schedule_session_maintenance_job db r id created now).0.jobs
        ≡ new_job r id created ∷ []
  only_pending h =
      ap (λ s. pending_for r s.0.jobs) (schedule_new db r id created now h)
      ∙ filter-append (is_pending_for r) (map (supersede_job r id now) db.jobs)
          (new_job r id created ∷ [])
      ∙ ap (λ l. l ++ pending_for r (new_job r id created ∷ [])) (none_pending r id now db.jobs)
      ∙ new_job-IsPending r id created

  -- Scheduling the same request again, whatever id and time it would draw, changes nothing,
  -- supersedes nothing and returns the job of the first call.
  pub schedule_again :
      (id' : String) (created' now' : ℕ)
      → let first = schedule_session_maintenance_job db r id created now in
        schedule_session_maintenance_job first.0 r id' created' now' ≡ (first.0, first.1, [])
  schedule_again id' created' now' = elim (Option-cases (find_by_key db.jobs (resolved_key r))) [
    | inl e ↦
        subst
          (λ first.
            schedule_session_maintenance_job first.0 r id' created' now' ≡ (first.0, first.1, []))
          (sym (schedule_new db r id created now e))
          (schedule_known _ r id' created' now' (
            find-append (resolved_key r) (map (supersede_job r id now) db.jobs)
              (new_job r id created ∷ []) (find-supersede r id now (resolved_key r) db.jobs e)
            ∙ find-new_job r id created))
    | inr (job, e) ↦
        subst
          (λ first.
            schedule_session_maintenance_job first.0 r id' created' now' ≡ (first.0, first.1, []))
          (sym (schedule_known db r id created now e)) (schedule_known db r id' created' now' e)
  ]
