-- ===== src/Mind/Focus.antt =====
-- The requests, payloads and events of backend/app/mind/focus.py.
pub mod Write
pub mod Read
pub mod Active
pub mod Refusals
pub mod Returns
pub mod Examples
use llm_api_mind.Base.{
  ℕ, String, Option, none, some, List, [], ◌∷◌, Bool, true, false, ◌==◌, contains, if◌then◌else◌,
}
use mathlib.Core.Option
use llm_api_mind.Base.Json.{Json, null, bool, num, str, obj, Fields, end, field, text_or_null}
use llm_api_mind.Storage.OrganRows.{FocusRecord, FocusTransition}
use llm_api_mind.Storage.Models.{CognitiveEvent, Message, Trace, Database}
use llm_api_mind.Storage.Sessions.{add_trace}
use llm_api_mind.Storage.SummaryStates.{latest_message_for_turn}
use llm_api_mind.Storage.Events.{add_event}
use llm_api_mind.Storage.Shared.{Stamp}
use llm_api_mind.Mind.Contracts.{MindApiContext, MemoryOperationResult, text_or}

pub data Action : Type 0 where
  set update hold shift defer resolve impossible read list search timeline : Action

unfoldable pub action_text : Action → String
action_text set = "set"
action_text update = "update"
action_text hold = "hold"
action_text shift = "shift"
action_text defer = "defer"
action_text resolve = "resolve"
action_text impossible = "impossible"
action_text read = "read"
action_text list = "list"
action_text search = "search"
action_text timeline = "timeline"

-- a validated body
pub record FocusBody : Type 0 where
  pub action : Action
  pub focus_id : Option String
  pub object : Option String
  pub type : Option String
  pub intensity : Option String
  pub duration_policy : Option String
  pub reason : Option String
  pub resolution : Option String
  pub impossible_reason : Option String
  pub status : Option String
  pub query : Option String
  pub limit : ℕ
  pub offset : ℕ
  pub metadata : Fields

-- the dict of `_source_payload`
pub record Source : Type 0 where
  pub session_id : Option String
  pub turn_id : Option String
  pub message_id : Option String

unfoldable pub owner_profile_id : MindApiContext → String
owner_profile_id context = text_or context.user_profile_id "local-user"

unfoldable pub source_payload : Database → MindApiContext → Source
source_payload db context = record {
  session_id = context.session_id;
  turn_id = context.turn_id;
  message_id = message_of context.turn_id;
}
  where
    message_of : Option String → Option String
    message_of none = none
    message_of (some turn) = Option.map (λ m. m.id) (latest_message_for_turn db turn (some "user"))

module _ (isoformat : ℕ → String) where
  abbrev time_or_null : Option ℕ → Json
  time_or_null none = null
  time_or_null (some t) = str (isoformat t)

  unfoldable pub focus_payload : FocusRecord → Json
  focus_payload f = obj (
      field "id" (str f.id) (
        field "owner_profile_id" (str f.owner_profile_id) (
          field "status" (str f.status) (
            field "object" (str f.focus_object) (
              field "type" (str f.focus_type) (
                field "intensity" (num f.intensity) (
                  field "duration_policy" (text_or_null f.duration_policy) (
                    field "reason" (str f.reason) (
                      field "resolution" (text_or_null f.resolution) (
                        field "impossible_reason" (text_or_null f.impossible_reason) (
                          field "created_by" (str f.created_by) (
                            field "source_session_id" (text_or_null f.source_session_id)
                              (rest f)))))))))))))
    where
      rest : FocusRecord → Fields
      rest g = field "source_turn_id" (text_or_null g.source_turn_id) (
          field "source_message_id" (text_or_null g.source_message_id) (
            field "created_at" (str (isoformat g.created_at)) (
              field "updated_at" (str (isoformat g.updated_at)) (
                field "closed_at" (time_or_null g.closed_at)
                  (field "metadata" (obj g.metadata_json) end)))))

  abbrev pub focus_or_null : Option FocusRecord → Json
  focus_or_null none = null
  focus_or_null (some f) = focus_payload f

  unfoldable pub transition_payload : FocusTransition → Json
  transition_payload t = obj (
      field "id" (str t.id) (
        field "owner_profile_id" (str t.owner_profile_id) (
          field "from_focus_id" (text_or_null t.from_focus_id) (
            field "to_focus_id" (text_or_null t.to_focus_id) (
              field "relation" (str t.relation) (
                field "reason" (text_or_null t.reason) (
                  field "source_session_id" (text_or_null t.source_session_id) (
                    field "source_turn_id" (text_or_null t.source_turn_id) (
                      field "source_message_id" (text_or_null t.source_message_id) (
                        field "created_at" (str (isoformat t.created_at))
                          (field "metadata" (obj t.metadata_json) end)))))))))))

  -- `_record_focus_event`; without a session nothing is written
  unfoldable pub record_focus_event :
      Database
      → Stamp
      → (event_type : String) → FocusRecord
      → Source
      → (payload : Fields) → Database
  unfolding focus_payload
  record_focus_event db stamp event_type focus source payload = written source.session_id
    where
      event : String → CognitiveEvent
      event session = record {
        id = stamp.id;
        session_id = session;
        turn_id = source.turn_id;
        seq = 0;
        type = event_type;
        source = "api_mind.focus";
        actor = "scarlet";
        visibility = "debug";
        status = "completed";
        parent_event_id = none;
        trace_id = none;
        tool_call_id = none;
        message_id = source.message_id;
        payload_json = field "focus" (focus_payload focus) payload;
        created_at = stamp.at;
      }

      written : Option String → Database
      written none = db
      written (some session) = add_event db (event session) none

-- `_trace_focus_operation`
unfoldable pub trace_focus_operation :
    Database → Stamp → (touched : ℕ) → Source → (operation : String) → (payload : Fields) → Database
trace_focus_operation db stamp touched source operation payload = written source.session_id
  where
    trace : String → Trace
    trace session = record {
      id = stamp.id;
      session_id = session;
      turn_id = source.turn_id;
      kind = "organ.focus";
      payload_json = field "operation" (str operation) payload;
      created_at = stamp.at;
    }

    written : Option String → Database
    written none = db
    written (some session) = add_trace db (trace session) touched

abbrev pub focus_policy : Json
focus_policy = obj (
    field "one_active_focus" (bool true) (
      field "profile_scoped" (bool true) (
        field "separate_from_memory_retrieval" (bool true) (
          field "does_not_filter_memory_by_default" (bool true) (
            field "meaning"
              (str
                "Focus is Scarlet's current foreground attention packet. It helps her keep a thread, shift intentionally, and archive why attention moved, but it is not a semantic memory and not evidence by itself.")
              end)))))

-- `_error` without a result of its own
unfoldable pub refusal : (code message : String) → MemoryOperationResult
refusal code message = record {
  ok = false;
  result = field "operation" (str "focus") end;
  error_code = some code;
  error_message = some message;
}

unfoldable pub success : Fields → MemoryOperationResult
success result = record { ok = true; result = result; error_code = none; error_message = none }
