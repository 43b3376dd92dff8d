-- ===== src/Storage/Examples.antt =====
-- The storage theorems at concrete rows.
use llm_api_mind.Base.{String, false, none, [], ◌∷◌, ◌≡◌, refl, contains}
use llm_api_mind.Storage.Models.{Database}
use llm_api_mind.Storage.History.{
  create_history_compaction, get_latest_history_compaction, supersede, new_artifact,
}
use llm_api_mind.Base.Sorting.{sort_by}
use llm_api_mind.Storage.History.Chain.{ids}
use llm_api_mind.Storage.History.Create.{IsLinked, create-IsLinked}
use llm_api_mind.Storage.Events.{add_event}
use llm_api_mind.Storage.Events.Sequence.{Ascends, events_of, add_event-Ascends}
use llm_api_mind.Storage.Jobs.{
  schedule_session_maintenance_job, new_job, find_by_key, resolved_key, supersede_job,
}
use llm_api_mind.Storage.Jobs.Schedule.{pending_for, only_pending, schedule_again}
use llm_api_mind.Storage.Sessions.{get_session_summary, upsert_session_summary}
use llm_api_mind.Storage.Sessions.Summaries.{recorded, get-upsert}
use llm_api_mind.Base.{some}
use llm_api_mind.Storage.Samples.{summary, empty, compaction, event, job_request}

nothing-IsLinked : IsLinked empty.compactions
nothing-IsLinked = record { unique = refl; chains = λ s. tt }

abbrev one_artifact : Database
one_artifact = create_history_compaction empty "c1" 1 2 (compaction "s")

one_artifact-IsLinked : IsLinked one_artifact.compactions
one_artifact-IsLinked = create-IsLinked empty "c1" 1 2 (compaction "s") nothing-IsLinked refl

c2_fresh : contains (ids one_artifact.compactions) "c2" ≡ false
unfolding create_history_compaction get_latest_history_compaction supersede new_artifact sort_by
c2_fresh = refl

create-IsLinked_example :
    IsLinked (create_history_compaction one_artifact "c2" 3 4 (compaction "s")).compactions
create-IsLinked_example =
    create-IsLinked one_artifact "c2" 3 4 (compaction "s") one_artifact-IsLinked c2_fresh

abbrev one_event : Database
one_event = add_event empty (event "e1" "s") none

one_event-Ascends : (s : String) → Ascends 0 (events_of s one_event.events)
one_event-Ascends = add_event-Ascends empty (event "e1" "s") (λ s. tt)

add_event-Ascends_example :
    Ascends 0 (events_of "s" (add_event one_event (event "e2" "s") none).events)
add_event-Ascends_example = add_event-Ascends one_event (event "e2" "s") one_event-Ascends "s"

abbrev one_job : Database
one_job = (schedule_session_maintenance_job empty (job_request "t1") "j1" 1 2).0

t2_unscheduled : find_by_key one_job.jobs (resolved_key (job_request "t2")) ≡ none
unfolding schedule_session_maintenance_job find_by_key resolved_key new_job supersede_job
t2_unscheduled = refl

only_pending_example :
    pending_for
      (job_request "t2")
      (schedule_session_maintenance_job one_job (job_request "t2") "j2" 3 4).0.jobs
    ≡ new_job (job_request "t2") "j2" 3 ∷ []
only_pending_example = only_pending one_job (job_request "t2") "j2" 3 4 t2_unscheduled

schedule_again_example :
    let first = schedule_session_maintenance_job one_job (job_request "t2") "j2" 3 4 in
    schedule_session_maintenance_job first.0 (job_request "t2") "j3" 5 6 ≡ (first.0, first.1, [])
schedule_again_example = schedule_again one_job (job_request "t2") "j2" 3 4 "j3" 5 6

abbrev one_summary : Database
one_summary = upsert_session_summary empty "u1" "s" 1 2 (summary "first")

get-upsert_example :
    get_session_summary (upsert_session_summary one_summary "u2" "s" 3 4 (summary "second")) "s"
    ≡ some (recorded (get_session_summary one_summary "s") "u2" "s" 3 4 (summary "second"))
get-upsert_example = get-upsert one_summary "u2" "s" 3 4 (summary "second") "s"
