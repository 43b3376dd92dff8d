-- ===== src/Stream/Turns.antt =====
-- `_apply_turn_event` of backend/app/api/chat_stream_v2.py.
use text.Mathlib.Text.{starts_with}
use llm_api_mind.Base.{
  ℕ, String, Option, none, some, List, [], ◌∷◌, ◌++◌, Bool, true, false, ◌&&◌, ◌==◌, if◌then◌else◌,
}
use llm_api_mind.Base.Json.{Json, str, obj, Fields, end, field, get}
use llm_api_mind.Chronology.Python.{Python}
use llm_api_mind.Chronology.Messages.{truthy}

pub record StreamEventLinks : Type 0 where
  pub parent_event_id : Option String
  pub trace_id : Option String
  pub tool_call_id : Option String
  pub message_id : Option String

pub record ScarletStreamEvent : Type 0 where
  pub schema_version : String
  pub event_id : String
  pub seq : ℕ
  pub session_id : String
  pub turn_id : Option String
  pub event_type : String
  pub phase : String
  pub timestamp : ℕ
  pub visibility : String
  pub links : StreamEventLinks
  pub payload : Fields

pub data TurnStatus : Type 0 where
  active failed completed : TurnStatus

pub record TurnError : Type 0 where
  pub code : Option Json
  pub message : Option Json
  pub details : Option Json

pub record TurnState : Type 0 where
  pub status : TurnStatus
  pub terminal : Bool
  pub user_message : Option Json
  pub assistant_message : Option Json
  pub notes : List (String × Json)
  pub answer : Option Json
  pub tools : List (String × Fields)
  pub error : Option TurnError
  pub event_ids : List String

abbrev pub new_turn : TurnState
new_turn = record {
  status = active;
  terminal = false;
  user_message = none;
  assistant_message = none;
  notes = [];
  answer = none;
  tools = [];
  error = none;
  event_ids = [];
}

-- `d[key] = value`
unfoldable pub put_field : Fields → String → Json → Fields
put_field end key v = field key v end
put_field (field k w rest) key v =
    if k == key then field k v rest else field k w (put_field rest key v)

-- `d.update(other)`
unfoldable pub update_fields : Fields → Fields → Fields
unfolding put_field
update_fields d end = d
update_fields d (field k v rest) = update_fields (put_field d k v) rest

-- `d[key] = f(d.setdefault(key, default))`
abbrev pub modify_or_new {ℓ} :
    {V : Type ℓ} → V → (V → V) → List (String × V) → String → List (String × V)
modify_or_new default f [] key = (key, f default) ∷ []
modify_or_new default f ((k, v) ∷ d) key =
    if k == key then (k, f v) ∷ d else (k, v) ∷ modify_or_new default f d key

abbrev is_dict : Option Json → Bool
is_dict (some (obj fs)) = true
is_dict _ = false

abbrev or_empty : Option Json → Json
or_empty none = str ""
or_empty (some v) = v

abbrev pub Turns : Type 0
Turns = List (String × TurnState)

module _ (py : Python) where
  -- `payload.get(key) or …`
  abbrev key_or : Option Json → String → String
  key_or none other = other
  key_or (some v) other = if truthy py v then py.text_of v else other

  unfoldable pub tool_key : ScarletStreamEvent → String
  tool_key e =
      key_or (get e.payload "provider_tool_use_id")
        (key_or (get e.payload "tool_call_id") e.event_id)

  -- the state of one tool call
  unfoldable pub tool_state : ScarletStreamEvent → Fields → Fields
  unfolding put_field update_fields
  tool_state e tool =
      put_field (put_field (update_fields tool e.payload) "event_id" (str e.event_id)) "phase"
        (str e.phase)

  -- the chain of tests behind `state["event_ids"].append(…)`
  unfoldable pub update_turn : ScarletStreamEvent → TurnState → TurnState
  unfolding tool_key tool_state
  update_turn e s =
      let message = get e.payload "message" in
      if e.event_type == "message.user.persisted" && is_dict message
      then record s { user_message = message }
      else if e.event_type == "message.assistant.persisted" && is_dict message
      then record s { assistant_message = message }
      else if e.event_type == "assistant.note.emitted"
      then record s { notes = s.notes ++ (e.event_id, or_empty (get e.payload "text")) ∷ [] }
      else if e.event_type == "assistant.answer.completed"
      then record s { answer = get e.payload "text" }
      else if starts_with e.event_type "mind.tool_call."
      then record s { tools = modify_or_new end (tool_state e) s.tools (tool_key e) }
      else if e.event_type == "turn.failed"
      then record s {
        status = failed;
        terminal = true;
        error = some (record {
          code = get e.payload "code";
          message = get e.payload "message";
          details = get e.payload "details";
        });
      }
      else if e.event_type == "turn.completed"
      then record s { status = completed; terminal = true }
      else s

  abbrev apply_to : Option String → ScarletStreamEvent → Turns → Turns
  apply_to none e turns = turns
  apply_to (some turn_id) e turns =
      modify_or_new new_turn
        (λ s. update_turn e (record s { event_ids = s.event_ids ++ e.event_id ∷ [] })) turns turn_id

  -- `_apply_turn_event`
  unfoldable pub apply_turn_event : Turns → ScarletStreamEvent → Turns
  unfolding update_turn
  apply_turn_event turns e = apply_to e.turn_id e turns
