-- ===== src/Stream/Samples.antt =====
-- Sample stream events, which arrive out of order and twice.
use Prim.Native.String.{◌++◌ as ◌<>◌}
use llm_api_mind.Base.{ℕ, String, none, some, List, [], ◌∷◌, ◌==◌}
use llm_api_mind.Base.Json.{Fields, str, end, field}
use llm_api_mind.Stream.Turns.{ScarletStreamEvent}
use llm_api_mind.Stream.Reducer.{Dumps, ReducerState}

abbrev pub stream_event : String → ℕ → String → Fields → ScarletStreamEvent
stream_event id seq type payload = record {
  schema_version = "scarlet-stream-v2";
  event_id = id;
  seq = seq;
  session_id = "s";
  turn_id = some "t";
  event_type = type;
  phase = "completed";
  timestamp = seq;
  visibility = "public";
  links = record {
    parent_event_id = none;
    trace_id = none;
    tool_call_id = none;
    message_id = none;
  };
  payload = payload;
}

-- an event is told apart by its id and its type
abbrev pub dumps : Dumps
dumps = record {
  fingerprint = λ e. e.event_id <> e.event_type;
  same = λ d e. d.event_type == e.event_type;
}

abbrev pub arrivals : List ScarletStreamEvent
arrivals =
    stream_event "e2" 2 "assistant.answer.completed" (field "text" (str "hello") end)
    ∷ stream_event "e5" 5 "turn.completed" end
    ∷ stream_event "e1" 1 "turn.started" end
    ∷ stream_event "e2" 2 "assistant.answer.completed" (field "text" (str "hello") end)
    ∷ []

abbrev pub fresh : ReducerState
fresh = record {
  cursor_seq = 0;
  applied_event_ids = [];
  pending_events = [];
  conflicting_event_ids = [];
  sequence_conflicts = [];
  event_fingerprints = [];
  turns = [];
}
