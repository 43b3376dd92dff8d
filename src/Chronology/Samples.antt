-- ===== src/Chronology/Samples.antt =====
-- Sample data for the chronology: a JSON printer, a session of two turns, and budgets.
use Prim.Native.String.{◌++◌ as ◌<>◌}
use llm_api_mind.Base.{ℕ, String, none, some, [], ◌∷◌, true, ◌==◌, not, eq_refl, if◌then◌else◌}
use llm_api_mind.Base.Json.{
  Json, null, bool, num, str, arr, obj, Items, nil, cons, Fields, end, field,
}
use llm_api_mind.Storage.Models.{ChatSession, Turn, Trace, Database}
use llm_api_mind.Chronology.Python.{Python, EqReflexive}
use llm_api_mind.Chronology.Messages.{ProviderMessage, to_json}
use llm_api_mind.Chronology.SourceMap.{MappedTurn, SourceMap, mapped}
use llm_api_mind.Chronology.SourceMap.Complete.{Exchange}
use llm_api_mind.Chronology.Partition.{Budgets}

unfoldable mutual
  pub print : Json → String
  print null = "null"
  print (bool b) = if b then "true" else "false"
  print (num n) = n
  print (str s) = "'" <> s <> "'"
  print (arr xs) = "[" <> print_items xs <> "]"
  print (obj fs) = "{" <> print_fields fs <> "}"

  pub print_items : Items → String
  print_items nil = ""
  print_items (cons x xs) = print x <> "," <> print_items xs

  pub print_fields : Fields → String
  print_fields end = ""
  print_fields (field k v fs) = k <> ":" <> print v <> "," <> print_fields fs

abbrev pub python : Python
python = record {
  json_eq = λ a b. print a == print b;
  dumps = print;
  sha256 = λ t. "sha256 of " <> t;
  ceil_tokens = λ n. n;
  text_of = print;
  is_nonzero = λ n. not (n == "0");
}

pub python-EqReflexive : EqReflexive python
python-EqReflexive v = eq_refl (print v)

abbrev pub says : String → String → ProviderMessage
says role text = record { role = role; content = cons (str text) nil }

abbrev pub session : ChatSession
session = record {
  id = "s";
  title = none;
  created_at = 1;
  updated_at = 1;
  provider_history_json = arr (
      cons (to_json (says "user" "hi"))
        (cons (to_json (says "assistant" "hello")) (cons (to_json (says "user" "bye")) nil)));
  metadata_json = end;
}

abbrev pub turn : String → ℕ → Turn
turn id at = record {
  id = id;
  session_id = "s";
  status = "completed";
  model = none;
  started_at = at;
  completed_at = some at;
  latency_ms = none;
  error_json = none;
}

abbrev pub request : String → String → ℕ → Items → Trace
request id turn_id at messages = record {
  id = id;
  session_id = "s";
  turn_id = some turn_id;
  kind = "llm.request";
  payload_json = field "canonical_provider_messages" (arr messages) end;
  created_at = at;
}

abbrev pub first : Exchange
first = record {
  turn = turn "t1" 1;
  trace = request "r1" "t1" 1 (cons (to_json (says "user" "hi")) nil);
  user = says "user" "hi";
  answer = says "assistant" "hello" ∷ [];
}

abbrev pub second : Exchange
second = record {
  turn = turn "t2" 2;
  trace = request "r2" "t2" 2 (
      cons (to_json (says "user" "hi"))
        (cons (to_json (says "assistant" "hello")) (cons (to_json (says "user" "bye")) nil)));
  user = says "user" "bye";
  answer = [];
}

-- a session of two completed turns, the second of which has no answer
abbrev pub database : Database
database = record {
  sessions = session ∷ [];
  summaries = [];
  compactions = [];
  turns = first.turn ∷ second.turn ∷ [];
  messages = [];
  traces = second.trace ∷ first.trace ∷ [];
  events = [];
  jobs = [];
  memories = [];
  activities = [];
  focuses = [];
  focus_transitions = [];
  intentions = [];
  intention_links = [];
  settings = [];
}

-- a mapped turn of a given cost
abbrev pub unit : String → ℕ → MappedTurn
unit id cost = record {
  turn_id = id;
  message_ids = [];
  tool_call_ids = [];
  request_trace_id = "r";
  response_trace_id = none;
  provider_messages = [];
  provider_message_count = 0;
  json_chars = 0;
  utf8_bytes = 0;
  estimated_tokens = cost;
  sha256 = id;
}

-- three turns, the newest two of which fit 50 tokens
abbrev pub three_turns : SourceMap
three_turns = mapped (record {
  canonical_history_sha256 = "";
  canonical_provider_message_count = 0;
  canonical_json_chars = 0;
  canonical_estimated_tokens = 0;
  mapped_provider_message_count = 0;
  legacy_prefix = record {
    provider_messages = none;
    provider_message_count = 0;
    json_chars = 0;
    estimated_tokens = 7;
    sha256 = none;
  };
  turn_count = 3;
  turns = unit "a" 30 ∷ unit "b" 20 ∷ unit "c" 25 ∷ [];
  mapping_verified = true;
})

abbrev pub budgets : Budgets
budgets = record {
  external_context_tokens = 100;
  provider_history_tokens = 82;
  trigger_tokens = 150;
  operational_limit_tokens = 300;
  model_window_tokens = 1000;
  summary_max_tokens = 40;
  verbatim_max_tokens = 50;
  safety_tokens = 10;
  mode = "active";
}
