-- ===== src/Storage/Sessions.antt =====
-- backend/app/storage/repository/sessions.py and _shared.py. A call that reads the clock or draws
-- an id takes them as arguments; `none` stands for the `ValueError` of a missing row.
pub mod Summaries
use Prim.Native.Nat.{compare as compare_nat}
use llm_api_mind.Base.{
  ℕ, String, Option, none, some, List, [], ◌∷◌, ◌++◌, map, Bool, ◌==◌, find, filter, drop, limited,
  matches, if◌then◌else◌, ◌&&◌, ◌>>=◌,
}
use llm_api_mind.Base.Json.{Fields, Items, arr, nil}
use llm_api_mind.Base.Sorting.{sort_by, by_time, then_by}
use llm_api_mind.Storage.Models.{
  ChatSession, SessionSummary, Turn, Message, Trace, Database, is_text,
}

unfoldable pub get_chat_session : Database → String → Option ChatSession
get_chat_session db session_id = find (λ s. s.id == session_id) db.sessions

-- `_shared.touch_session`: a session that is not there is left alone.
unfoldable pub touch_session : Database → String → ℕ → Database
touch_session db session_id at = record db {
  sessions = map (λ s. if s.id == session_id then record s { updated_at = at } else s) db.sessions;
}

unfoldable pub create_chat_session :
    Database → (id : String) (now : ℕ) → Option String → Fields → Database
create_chat_session db id now title metadata = record db {
  sessions =
      db.sessions
      ++ record {
        id = id;
        title = title;
        created_at = now;
        updated_at = now;
        provider_history_json = arr nil;
        metadata_json = metadata;
      }
        ∷ [];
}

unfoldable pub update_chat_session_provider_history :
    Database → (session_id : String) (now : ℕ) → Items → Option Database
update_chat_session_provider_history db session_id now provider_history = do
  chat_session ← get_chat_session db session_id
  some (record db {
    sessions =
        map
          (λ s.
            if s.id == session_id
            then record s { provider_history_json = arr provider_history; updated_at = now }
            else s)
          db.sessions;
  })

-- newest first
unfoldable pub list_chat_sessions : Database → (limit : Option ℕ) (offset : ℕ) → List ChatSession
list_chat_sessions db limit offset = limited limit (
    drop offset (
      sort_by
        (λ s t.
          then_by (compare_nat t.updated_at s.updated_at) (compare_nat t.created_at s.created_at))
        db.sessions))

unfoldable pub get_session_summary : Database → String → Option SessionSummary
get_session_summary db session_id = find (λ s. s.session_id == session_id) db.summaries

-- what a call of `upsert_session_summary` carries besides the session
pub record SummaryInput : Type 0 where
  pub summary : String
  pub topics : List String
  pub decisions : List String
  pub open_questions : List String
  pub memory_ids : List String
  pub message_count : ℕ
  pub source_turn_count : ℕ
  pub last_message_id : Option String
  pub status : String
  pub summary_version : String
  pub metadata : Fields

-- the assignments to an existing row; its id, session and creation time stay
unfoldable pub write_summary : SummaryInput → ℕ → SessionSummary → SessionSummary
write_summary x now s = record s {
  summary = x.summary;
  topics_json = x.topics;
  decisions_json = x.decisions;
  open_questions_json = x.open_questions;
  memory_ids_json = x.memory_ids;
  message_count = x.message_count;
  source_turn_count = x.source_turn_count;
  last_message_id = x.last_message_id;
  status = x.status;
  summary_version = x.summary_version;
  metadata_json = x.metadata;
  updated_at = now;
}

unfoldable pub new_summary : String → String → SummaryInput → (created now : ℕ) → SessionSummary
new_summary id session_id x created now = record {
  id = id;
  session_id = session_id;
  summary = x.summary;
  topics_json = x.topics;
  decisions_json = x.decisions;
  open_questions_json = x.open_questions;
  memory_ids_json = x.memory_ids;
  message_count = x.message_count;
  source_turn_count = x.source_turn_count;
  last_message_id = x.last_message_id;
  status = x.status;
  summary_version = x.summary_version;
  created_at = created;
  updated_at = now;
  metadata_json = x.metadata;
}

-- the first row that passes the test is rewritten
unfoldable pub update_first {ℓ} : {A : Type ℓ} → (A → Bool) → (A → A) → List A → List A
update_first p f [] = []
update_first p f (x ∷ xs) = if p x then f x ∷ xs else x ∷ update_first p f xs

unfoldable pub upsert_session_summary :
    Database → (new_id session_id : String) (created now : ℕ) → SummaryInput → Database
unfolding get_session_summary update_first write_summary new_summary
upsert_session_summary db new_id session_id created now x =
    elim (get_session_summary db session_id) [
      | none ↦ record db {
        summaries = db.summaries ++ new_summary new_id session_id x created now ∷ [];
      }
      | some s ↦ record db {
        summaries =
            update_first (λ s. s.session_id == session_id) (write_summary x now) db.summaries;
      }
    ]

unfoldable pub create_turn :
    Database → (id session_id : String) (started now : ℕ) → Option String → Database
unfolding touch_session
create_turn db id session_id started now model =
    touch_session (record db { turns = db.turns ++ turn ∷ [] }) session_id now
  where
    turn : Turn
    turn = record {
      id = id;
      session_id = session_id;
      status = "started";
      model = model;
      started_at = started;
      completed_at = none;
      latency_ms = none;
      error_json = none;
    }

unfoldable pub get_turn : Database → String → Option Turn
get_turn db turn_id = find (λ t. t.id == turn_id) db.turns

unfoldable pub complete_turn :
    Database
    → (turn_id status : String) (now : ℕ) → (latency_ms : Option ℕ) → (error : Option Fields)
    → Option Database
unfolding touch_session get_turn
complete_turn db turn_id status now latency_ms error = do
  turn ← get_turn db turn_id
  some (touch_session (record db { turns = map finish db.turns }) turn.session_id now)
  where
    finish : Turn → Turn
    finish t =
        if t.id == turn_id
        then record t {
          status = status;
          completed_at = some now;
          latency_ms = latency_ms;
          error_json = error;
        }
        else t

unfoldable pub add_message : Database → Message → (now : ℕ) → Database
unfolding touch_session
add_message db message now =
    touch_session (record db { messages = db.messages ++ message ∷ [] }) message.session_id now

unfoldable pub list_messages : Database → String → List Message
list_messages db session_id =
    sort_by (λ m n. by_time m.created_at m.id n.created_at n.id)
      (filter (λ m. m.session_id == session_id) db.messages)

unfoldable pub list_turns_for_session :
    Database → (session_id : String) → (status : Option String) → (limit : Option ℕ) → List Turn
list_turns_for_session db session_id status limit = limited limit (
    sort_by (λ t u. by_time t.started_at t.id u.started_at u.id)
      (filter (λ t. t.session_id == session_id && matches status t.status) db.turns))

unfoldable pub get_message : Database → String → Option Message
get_message db message_id = find (λ m. m.id == message_id) db.messages

unfoldable pub list_messages_for_turn : Database → String → List Message
list_messages_for_turn db turn_id =
    sort_by (λ m n. by_time m.created_at m.id n.created_at n.id)
      (filter (λ m. is_text m.turn_id turn_id) db.messages)

unfoldable pub add_trace : Database → Trace → (now : ℕ) → Database
unfolding touch_session
add_trace db trace now =
    touch_session (record db { traces = db.traces ++ trace ∷ [] }) trace.session_id now

unfoldable pub list_traces_for_turn : Database → String → List Trace
list_traces_for_turn db turn_id =
    sort_by (λ s t. by_time s.created_at s.id t.created_at t.id)
      (filter (λ t. is_text t.turn_id turn_id) db.traces)
