-- ===== src/Mind/Focus/Examples.antt =====
-- The focus theorems at a table of one superseded and one active focus.
use llm_api_mind.Base.{
  ℕ, String, Option, some, none, [], ◌∷◌, ◌≡◌, refl, true, is_some, length, inr, ◌==◌,
}
use llm_api_mind.Base.Json.{end}
use llm_api_mind.Storage.OrganRows.{FocusRecord}
use llm_api_mind.Storage.Models.{Database}
use llm_api_mind.Base.Sorting.{sort_by}
use llm_api_mind.Storage.Samples.{empty}
use llm_api_mind.Storage.Focus.{
  get_focus_record, get_active_focus, list_active_focus_records, is_active_of, update_focus_record,
  updated_focus, add_focus_transition,
}
use llm_api_mind.Mind.Contracts.{MindApiContext, MemoryOperationResult}
use llm_api_mind.Mind.Focus.{
  FocusBody, Action, set, hold, resolve, Source, refusal, record_focus_event, trace_focus_operation,
  owner_profile_id,
}
use llm_api_mind.Mind.Focus.Write.{
  Draws, set_or_shift_focus, update_or_hold_focus, target_focus, focus_at, written_through,
  close_focus, closing_refusal,
}
use llm_api_mind.Mind.Focus.Read.{Host, handle_focus, dispatch, by_action}
use llm_api_mind.Mind.Focus.Active.{set_leaves_one_active}
use llm_api_mind.Mind.Focus.Refusals.{refused_unchanged}
use llm_api_mind.Mind.Focus.Returns.{handle_returns}

abbrev focus : String → String → ℕ → FocusRecord
focus id status t = record {
  id = id;
  owner_profile_id = "p";
  status = status;
  focus_object = id;
  focus_type = "general";
  intensity = "0.5";
  duration_policy = none;
  reason = "r";
  resolution = none;
  impossible_reason = none;
  created_by = "scarlet";
  source_session_id = none;
  source_turn_id = none;
  source_message_id = none;
  created_at = t;
  updated_at = t;
  closed_at = none;
  metadata_json = end;
}

abbrev database : Database
database = record empty { focuses = focus "f1" "superseded" 1 ∷ focus "f2" "active" 2 ∷ [] }

abbrev request : Action → Option String → Option String → FocusBody
request action id object = record {
  action = action;
  focus_id = id;
  object = object;
  type = none;
  intensity = none;
  duration_policy = none;
  reason = none;
  resolution = none;
  impossible_reason = none;
  status = none;
  query = none;
  limit = 10;
  offset = 0;
  metadata = end;
}

abbrev draws : Draws
draws = record {
  closed_at = λ n. 10;
  closed_event = λ n. record { id = "e"; at = 10 };
  focus = record { id = "f3"; at = 11 };
  transition = record { id = "t1"; at = 12 };
  transition_touch = 12;
  event = record { id = "e2"; at = 13 };
  trace = record { id = "tr"; at = 14 };
  trace_touch = 14;
}

abbrev nowhere : Source
nowhere = record { session_id = none; turn_id = none; message_id = none }

abbrev iso : ℕ → String
iso t = "a time"

set_leaves_one_active_example :
    (db' : Database) × (result : MemoryOperationResult) × (f : FocusRecord) × (set_or_shift_focus
        iso draws
        (request set none (some "work"))
        "p"
        nowhere
        "i"
        database
      ≡ some (db', result))
    × (result.ok ≡ true)
    × (f.focus_object ≡ "work")
    × (list_active_focus_records db' "p" ≡ f ∷ [])
    × (get_active_focus db' "p" ≡ some f)
set_leaves_one_active_example =
    set_leaves_one_active iso draws (request set none (some "work")) "p" nowhere "i" database "work"
      refl

-- every body is a resolution without a reason
abbrev host : Host
host = record {
  isoformat = iso;
  decimal = λ n. "n";
  text = record { strip = λ t. t; has = λ c n. c == n };
  validate = λ body. inr (request resolve (some "f2") none);
}

abbrev context : MindApiContext
context = record { session_id = none; turn_id = none; user_profile_id = some "p" }

handle_returns_example :
    is_some (handle_focus host (λ l. l) draws database end (some context) "i") ≡ true
handle_returns_example = handle_returns host (λ l. l) draws database end (some context) "i"

no_resolution :
    handle_focus host (λ l. l) draws database end (some context) "i"
    ≡ some (database, refusal "focus.missing_resolution" "resolve requires resolution or reason.")
unfolding handle_focus dispatch by_action close_focus closing_refusal target_focus focus_at
    get_focus_record owner_profile_id
no_resolution = refl

refused_unchanged_example : database ≡ database
refused_unchanged_example =
    refused_unchanged host (λ l. l) draws database end (some context) "i" no_resolution
      (unfold refusal in refl)

count_active : Option (Database × MemoryOperationResult) → ℕ
count_active none = 0
count_active (some (db, r)) = length (list_active_focus_records db "p")

-- Holding a superseded focus by its id makes it active again beside the active one.
held_test :
    count_active
      (update_or_hold_focus iso draws (request hold (some "f1") none) "p" nowhere "i" database)
    ≡ 2
unfolding count_active update_or_hold_focus target_focus focus_at get_focus_record
    update_focus_record updated_focus written_through add_focus_transition record_focus_event
    trace_focus_operation list_active_focus_records is_active_of sort_by
held_test = refl
