-- ===== src/Maintenance/Attempts.antt =====
-- How many repair jobs `schedule_summary_repairs` gives one target, a last message of a session.
pub mod Loop
pub mod Untouched
use llm_api_mind.Base.{
  ℕ, ◌+◌, ◌≤◌, ◌<◌, String, Option, none, some, List, [], ◌∷◌, ◌++◌, map, Bool, true, false, ◌≡◌,
  refl, sym, subst, ap, ◌∙◌, inl, inr, arith, ◌==◌, ◌&&◌, ◌||◌, eq_iff, eq_refl, Bool-cases,
  Option-cases, not, length, length-append, leb, ltb, leb→le, filter, take, if◌then◌else◌,
}
use llm_api_mind.Base.Numbers.{
  number_of, number_of-append, number_of-filter, number_of_eq, number_of-map, length-number_of,
  query-number_of,
}
use llm_api_mind.Base.Json.{get}
use llm_api_mind.Storage.Models.{MaintenanceJob, Database}
use llm_api_mind.Storage.Jobs.{
  JobRequest, resolved_key, find_by_key, supersede_job, new_job, schedule_session_maintenance_job,
  is_pending_for, list_maintenance_jobs,
}
use llm_api_mind.Storage.Jobs.Schedule.{schedule_new, schedule_known}
use llm_api_mind.Storage.SummaryStates.{SessionSummaryState, list_session_summary_states}
use llm_api_mind.Maintenance.Shared.{Host, Settings, session_summary_repair_kind}
use llm_api_mind.Maintenance.Idle.{is_str, targets, matching_jobs}
use llm_api_mind.Maintenance.Repairs.{
  RepairDraw, is_live, any, repair_states, next_attempt, due_attempt, repair_request,
  schedule_summary_repairs, given_limit,
}
use llm_api_mind.Maintenance.Scheduled.{repair_full, repair_skip, repair_due}

-- a repair job of a session
abbrev pub is_repair : String → MaintenanceJob → Bool
is_repair s j = j.kind == session_summary_repair_kind && j.session_id == s

-- a repair job of a session for its last message `m`
abbrev pub repairs : String → String → MaintenanceJob → Bool
repairs s m j = is_repair s j && is_str (get j.input_json "target_last_message_id") m

abbrev pub live_repairs : String → String → MaintenanceJob → Bool
live_repairs s m j = repairs s m j && is_live j

-- Every target has at most so many repair jobs, and at most one that is pending, running or
-- completed.
pub record IsBounded (max_attempts : ℕ) (jobs : List MaintenanceJob) : Type 0 where
  pub attempts : (s m : String) → number_of (repairs s m) jobs ≤ max_attempts
  pub one_live : (s m : String) → number_of (live_repairs s m) jobs ≤ 1

any_none : (l : List MaintenanceJob) → any is_live l ≡ false → number_of is_live l ≡ 0
any_none [] h = refl
any_none (j ∷ l) h = ground (arith, any_none l)

module _ (db : Database) (state : SessionSummaryState) (last : String)
    (target : state.last_message_id ≡ some last)
    (few : number_of (is_repair state.chat_session.id) db.jobs ≤ 100) where
  -- the query of a session's repair jobs counts them all
  matching-number_of :
      (q : MaintenanceJob → Bool)
      → number_of q (matching_jobs db state)
        ≡ number_of (λ j. repairs state.chat_session.id last j && q j) db.jobs
  unfolding matching_jobs list_maintenance_jobs
  matching-number_of q = rw target (
      query-number_of _ (λ j. is_repair state.chat_session.id j)
        (λ j. is_str (get j.input_json "target_last_message_id") last) q 100 db.jobs few
      ∙ number_of_eq _ _ db.jobs (λ j. ground arith))

  matching_length :
      length (matching_jobs db state) ≡ number_of (repairs state.chat_session.id last) db.jobs
  matching_length =
      length-number_of (matching_jobs db state)
      ∙ matching-number_of (λ j. true)
      ∙ number_of_eq _ _ db.jobs (λ j. ground arith)

-- what the tests of a due state say
allowed :
    (host : Host) (settings : Settings) (jobs : List MaintenanceJob) (target : Option String)
    (last : String) (attempt : ℕ)
    → next_attempt host settings jobs target ≡ some (last, attempt)
    → (target ≡ some last)
      × (any is_live jobs ≡ false)
      × (length jobs + 1 ≤ settings.summary_reconcile_max_attempts)
unfolding next_attempt
allowed host settings jobs none last attempt e = cc
allowed host settings jobs (some m) last attempt e = ground (arith, e)

due :
    (host : Host) (settings : Settings) (db : Database) (state : SessionSummaryState)
    (last : String) (attempt : ℕ)
    → due_attempt host settings db state ≡ some (last, attempt)
    → (state.last_message_id ≡ some last)
      × (any is_live (matching_jobs db state) ≡ false)
      × (length (matching_jobs db state) + 1 ≤ settings.summary_reconcile_max_attempts)
unfolding due_attempt
due host settings db state last attempt e =
    allowed host settings (matching_jobs db state) state.last_message_id last attempt
      (ground (arith, e))

module _ (r : JobRequest) (id : String) (now : ℕ) where
  superseded_repairs :
      (s m : String) (j : MaintenanceJob)
      → repairs s m (supersede_job r id now j) ≡ true
      → repairs s m j ≡ true
  unfolding supersede_job
  superseded_repairs s m j = elim (Bool-cases (is_pending_for r j)) [
    | inl e ↦ rw e (λ h. h)
    | inr e ↦ rw e (λ h. h)
  ]

  superseded_repair :
      (s : String) (j : MaintenanceJob)
      → is_repair s (supersede_job r id now j) ≡ true
      → is_repair s j ≡ true
  unfolding supersede_job
  superseded_repair s j = elim (Bool-cases (is_pending_for r j)) [
    | inl e ↦ rw e (λ h. h)
    | inr e ↦ rw e (λ h. h)
  ]

  superseded_live :
      (s m : String) (j : MaintenanceJob)
      → live_repairs s m (supersede_job r id now j) ≡ true
      → live_repairs s m j ≡ true
  unfolding supersede_job
  superseded_live s m j = elim (Bool-cases (is_pending_for r j)) [
    | inl e ↦ rw e (λ h. ground (arith, h))
    | inr e ↦ rw e (λ h. h)
  ]

-- one more job that passes, where the others let no more pass than before
one_more :
    (p : MaintenanceJob → Bool) (f : MaintenanceJob → MaintenanceJob) (l : List MaintenanceJob)
    (j : MaintenanceJob)
    → ((k : MaintenanceJob) → p (f k) ≡ true → p k ≡ true)
    → number_of p (map f l ++ j ∷ []) ≤ number_of p l + (if p j then 1 else 0)
one_more p f l j h = ground (arith, number_of-append p (map f l) (j ∷ []), number_of-map p f l h)

module _ (host : Host) (settings : Settings) (db : Database) (state : SessionSummaryState)
    (last : String) (attempt clock : ℕ) (id : String) (created now : ℕ) where
  abbrev pub asked : JobRequest
  asked = repair_request host settings state last attempt clock

  abbrev pub added : List MaintenanceJob
  added = map (supersede_job asked id now) db.jobs ++ new_job asked id created ∷ []

  abbrev own : String → String → Bool
  own s m = state.chat_session.id == s && last == m

  own_repair : (s m : String) → repairs s m (new_job asked id created) ≡ own s m
  unfolding new_job repair_request
  own_repair s m = refl

  own_live : (s m : String) → live_repairs s m (new_job asked id created) ≡ own s m
  unfolding new_job repair_request
  own_live s m = ground arith

  own_session : (s : String) → is_repair s (new_job asked id created) ≡ (state.chat_session.id == s)
  unfolding new_job repair_request
  own_session s = refl

  -- a new job for a due state keeps the bounds
  pub added-IsBounded :
      due_attempt host settings db state ≡ some (last, attempt)
      → number_of (is_repair state.chat_session.id) db.jobs ≤ 100
      → IsBounded settings.summary_reconcile_max_attempts db.jobs
      → IsBounded settings.summary_reconcile_max_attempts added
  added-IsBounded e few bounded =
      let (target, dead, room) = due host settings db state last attempt e in
      let sid : String = state.chat_session.id in
      let new : MaintenanceJob = new_job asked id created in
      let f : MaintenanceJob → MaintenanceJob = supersede_job asked id now in
      let none_live : number_of (live_repairs sid last) db.jobs ≡ 0 =
        sym (matching-number_of db state last target few is_live)
        ∙ any_none (matching_jobs db state) dead in
      record {
        attempts = λ s m. elim (Bool-cases (own s m)) [
          | inl mine ↦
              let same : (sid ≡ s) × (last ≡ m) =
                ground (arith, mine, eq_iff sid s, eq_iff last m) in
              subst (λ t. number_of (repairs t m) added ≤ settings.summary_reconcile_max_attempts)
                same.0
                (subst
                  (λ t. number_of (repairs sid t) added ≤ settings.summary_reconcile_max_attempts)
                  same.1
                  (ground (
                    arith,
                    one_more (repairs sid last) f db.jobs new
                        (superseded_repairs asked id now sid last),
                    matching_length db state last target few,
                    room,
                  )))
          | inr other ↦ ground (
            arith,
            one_more (repairs s m) f db.jobs new (superseded_repairs asked id now s m),
            own_repair s m,
            other,
            bounded.attempts s m,
          )
        ];
        one_live = λ s m. elim (Bool-cases (own s m)) [
          | inl mine ↦
              let same : (sid ≡ s) × (last ≡ m) =
                ground (arith, mine, eq_iff sid s, eq_iff last m) in
              subst (λ t. number_of (live_repairs t m) added ≤ 1) same.0
                (subst (λ t. number_of (live_repairs sid t) added ≤ 1) same.1
                  (ground (
                    arith,
                    one_more (live_repairs sid last) f db.jobs new
                        (superseded_live asked id now sid last),
                    none_live,
                  )))
          | inr other ↦ ground (
            arith,
            one_more (live_repairs s m) f db.jobs new (superseded_live asked id now s m),
            own_live s m,
            other,
            bounded.one_live s m,
          )
        ];
      }

  -- no session gets more than one repair job
  pub added_few : (s : String) → number_of (is_repair s) added ≤ number_of (is_repair s) db.jobs + 1
  added_few s = ground (
    arith,
    one_more (is_repair s) (supersede_job asked id now) db.jobs (new_job asked id created)
        (superseded_repair asked id now s),
  )
