-- ===== src/Mind/Focus/Write.antt =====
-- `_target_focus`, `_set_or_shift_focus`, `_update_or_hold_focus` and `_close_focus` of
-- backend/app/mind/focus.py.
use Prim.Native.String.{◌++◌ as ◌<>◌}
use llm_api_mind.Base.{
  ℕ, suc, String, Option, none, some, List, [], ◌∷◌, Bool, true, false, ◌==◌, ◌||◌, head?,
  if◌then◌else◌, ◌>>=◌,
}
use mathlib.Core.Option
use llm_api_mind.Base.Json.{null, str, Fields, end, field, text_or_null}
use llm_api_mind.Storage.OrganRows.{FocusRecord, FocusTransition}
use llm_api_mind.Storage.Models.{Database}
use llm_api_mind.Storage.Shared.{Stamp, assigned}
use llm_api_mind.Storage.Focus.{
  FocusInput, get_focus_record, get_active_focus, list_active_focus_records, create_focus_record,
  update_focus_record, close_focus_record, add_focus_transition,
}
use llm_api_mind.Mind.Contracts.{MemoryOperationResult, text_or, option_or, given_text}
use llm_api_mind.Mind.Focus.{
  Action, hold, resolve, impossible, action_text, FocusBody, Source, focus_payload, focus_or_null,
  transition_payload, record_focus_event, trace_focus_operation, focus_policy, refusal, success,
}

-- What one request draws: for the n-th focus that it closes, the time and the event; then the new
-- row, the transition, the event and the trace, with the times of their touches.
pub record Draws : Type 0 where
  pub closed_at : ℕ → ℕ
  pub closed_event : ℕ → Stamp
  pub focus : Stamp
  pub transition : Stamp
  pub transition_touch : ℕ
  pub event : Stamp
  pub trace : Stamp
  pub trace_touch : ℕ

-- the row that a profile owns
abbrev pub owned : (owner : String) → Option FocusRecord → Option FocusRecord
owned owner none = none
owned owner (some f) = if f.owner_profile_id == owner then some f else none

-- An empty id counts as absent.
unfoldable pub focus_at : Database → (owner : String) → Option String → Option FocusRecord
focus_at db owner none = get_active_focus db owner
focus_at db owner (some id) =
    if id == "" then get_active_focus db owner else owned owner (get_focus_record db id)

unfoldable pub target_focus : Database → FocusBody → (owner : String) → Option FocusRecord
unfolding focus_at
target_focus db request owner = focus_at db owner request.focus_id

-- a transition of the owner from the source of the request
unfoldable pub transition_row :
    Stamp
    → (owner : String) → Source
    → (from to : Option String) → (relation reason : String) → FocusTransition
transition_row stamp owner source from to relation reason = record {
  id = stamp.id;
  owner_profile_id = owner;
  from_focus_id = from;
  to_focus_id = to;
  relation = relation;
  reason = some reason;
  source_session_id = source.session_id;
  source_turn_id = source.turn_id;
  source_message_id = source.message_id;
  created_at = stamp.at;
  metadata_json = end;
}

-- what `_close_focus` takes from the action
pub record Closing : Type 0 where
  pub status : String
  pub relation : String

unfoldable pub closing : Action → Closing
closing resolve = record { status = "resolved"; relation = "resolved_into" }
closing impossible = record { status = "impossible"; relation = "blocked_by" }
closing _ = record { status = "deferred"; relation = "deferred" }

module _ (isoformat : ℕ → String) (d : Draws) (request : FocusBody) (owner : String)
    (source : Source) (intent : String) where
  -- what the three operations write behind the row of the focus
  unfoldable pub written_through :
      Database
      → FocusTransition
      → (event_type : String) → FocusRecord
      → (event_payload trace_payload : Fields) → Database
  written_through db transition event_type focus event_payload trace_payload =
      trace_focus_operation
        (record_focus_event isoformat (add_focus_transition db transition d.transition_touch)
          d.event event_type focus source event_payload)
        d.trace d.trace_touch source ("focus." <> action_text request.action) trace_payload

  abbrev pub supersedes : String
  supersedes = "Replaced by a new focus through action=" <> action_text request.action <> "."

  -- The loop over the active rows, with the rows as they are afterwards; `none` is the
  -- `AssertionError` of a missing row.
  unfoldable pub close_previous :
      (reason : String)
      → Database
      → (n : ℕ) → List FocusRecord
      → Option (Database × List FocusRecord)
  close_previous reason db n [] = some (db, [])
  close_previous reason db n (previous ∷ rest) = do
    (db', closed) ← close_focus_record db previous.id (d.closed_at n) (record {
      status = "superseded";
      resolution = some supersedes;
      impossible_reason = none;
      metadata = end;
    })
    (db'', more) ←
        close_previous reason
          (record_focus_event isoformat db' (d.closed_event n) "organ.focus.closed" closed source
            (field "closed_as" (str "superseded") (field "reason" (str reason) end)))
          (suc n) rest
    some (db'', closed ∷ more)

  abbrev id_of : Option FocusRecord → Option String
  id_of f = Option.map (λ x. x.id) f

  abbrev relation_of : Option FocusRecord → String
  relation_of none = "started"
  relation_of (some f) = "shifted_to"

  -- the arguments of `create_focus_record`
  unfoldable pub focus_input : (object reason : String) → FocusInput
  focus_input object reason = record {
    owner_profile_id = owner;
    focus_object = object;
    focus_type = text_or request.type "general";
    reason = reason;
    intensity = assigned request.intensity "0.5";
    duration_policy = request.duration_policy;
    created_by = "scarlet";
    source_session_id = source.session_id;
    source_turn_id = source.turn_id;
    source_message_id = source.message_id;
    metadata = request.metadata;
  }

  -- behind the loop: the new row, its transition, the event and the trace
  unfoldable pub set_focus :
      (object reason : String) → Option FocusRecord → Database → Database × MemoryOperationResult
  unfolding focus_input written_through transition_row
  set_focus object reason previous db =
      let (db', focus) = create_focus_record db d.focus.id d.focus.at (focus_input object reason) in
      let transition : FocusTransition =
        transition_row d.transition owner source (id_of previous) (some focus.id)
          (relation_of previous) reason in
      (
        written_through db' transition "organ.focus.created" focus
            (field "action" (str (action_text request.action)) (
              field "transition" (transition_payload isoformat transition)
                (field "previous_focus_id" (text_or_null (id_of previous)) end)))
            (field "focus" (focus_payload isoformat focus) (
              field "previous_focus" (focus_or_null isoformat previous)
                (field "transition" (transition_payload isoformat transition) end))),
        success (
            field "operation" (str ("focus." <> action_text request.action)) (
              field "active_focus" (focus_payload isoformat focus) (
                field "previous_focus" (focus_or_null isoformat previous) (
                  field "transition" (transition_payload isoformat transition)
                    (field "focus_policy" focus_policy end))))),
      )

  -- the request with an object
  unfoldable pub set_object :
      (object : String) → Database → Option (Database × MemoryOperationResult)
  unfolding close_previous set_focus
  set_object object db =
      let reason : String = text_or request.reason intent in
      elim (close_previous reason db 0 (list_active_focus_records db owner)) [
        | none ↦ none
        | some (db', closed) ↦ some (set_focus object reason (head? closed) db')
      ]

  unfoldable pub set_or_shift_focus : Database → Option (Database × MemoryOperationResult)
  unfolding set_object
  set_or_shift_focus db = elim request.object [
    | none ↦ some (db, refusal "focus.missing_object" "set and shift actions require object.")
    | some object ↦ set_object object db
  ]

  abbrev is_hold : Action → Bool
  is_hold hold = true
  is_hold _ = false

  unfoldable pub update_or_hold_focus : Database → Option (Database × MemoryOperationResult)
  unfolding written_through transition_row
  update_or_hold_focus db = elim (target_focus db request owner) [
    | none ↦ some (db, refusal "focus.not_found" "No target focus found for update/hold.")
    | some focus ↦
        let holds = is_hold request.action in
        let transition : FocusTransition =
          transition_row d.transition owner source (some focus.id) (some focus.id)
            (if holds then "held" else "updated") (text_or request.reason intent) in
        do
          (db', updated) ← update_focus_record db focus.id d.focus.at (record {
            focus_object = request.object;
            focus_type = request.type;
            reason = option_or request.reason (if holds then some intent else none);
            intensity = request.intensity;
            duration_policy = request.duration_policy;
            status = if holds then some "held" else none;
            metadata = request.metadata;
          })
          some (
            written_through db' transition "organ.focus.updated" updated
                (field "action" (str (action_text request.action))
                  (field "transition" (transition_payload isoformat transition) end))
                (field "focus" (focus_payload isoformat updated)
                  (field "transition" (transition_payload isoformat transition) end)),
            success (
                field "operation" (str ("focus." <> action_text request.action)) (
                  field "active_focus" (focus_payload isoformat updated) (
                    field "transition" (transition_payload isoformat transition)
                      (field "focus_policy" focus_policy end)))),
          )
  ]

  -- the guard of the action, where it refuses
  unfoldable pub closing_refusal : Action → Option MemoryOperationResult
  closing_refusal resolve =
      if given_text request.resolution || given_text request.reason
      then none
      else some (refusal "focus.missing_resolution" "resolve requires resolution or reason.")
  closing_refusal impossible =
      if given_text request.impossible_reason || given_text request.reason
      then none
      else some (
          refusal "focus.missing_impossible_reason"
            "impossible requires impossible_reason or reason.")
  closing_refusal _ = none

  unfoldable pub close_target : Database → FocusRecord → Option (Database × MemoryOperationResult)
  unfolding closing written_through transition_row
  close_target db focus =
      let c = closing request.action in
      do
        (db', closed) ← close_focus_record db focus.id d.focus.at (record {
          status = c.status;
          resolution =
              option_or request.resolution
                (if c.status == "resolved" then request.reason else none);
          impossible_reason =
              option_or request.impossible_reason
                (if c.status == "impossible" then request.reason else none);
          metadata = request.metadata;
        })
        let transition : FocusTransition =
            transition_row d.transition owner source (some closed.id) none c.relation (
              text_or request.reason
                (text_or request.resolution (text_or request.impossible_reason intent)))
        some (
          written_through db' transition "organ.focus.closed" closed
              (field "action" (str (action_text request.action)) (
                field "closed_as" (str c.status)
                  (field "transition" (transition_payload isoformat transition) end)))
              (field "focus" (focus_payload isoformat closed)
                (field "transition" (transition_payload isoformat transition) end)),
          success (
              field "operation" (str ("focus." <> action_text request.action)) (
                field "closed_focus" (focus_payload isoformat closed) (
                  field "active_focus" null (
                    field "transition" (transition_payload isoformat transition)
                      (field "focus_policy" focus_policy end))))),
        )

  unfoldable pub close_focus : Database → Option (Database × MemoryOperationResult)
  unfolding closing_refusal close_target
  close_focus db = elim (target_focus db request owner) [
    | none ↦ some (db, refusal "focus.not_found" "No target focus found to close.")
    | some focus ↦ elim (closing_refusal request.action) [
      | some refused ↦ some (db, refused)
      | none ↦ close_target db focus
    ]
  ]
