-- ===== src/Storage/Events.antt =====
-- The runtime events of backend/app/storage/repository/runtime.py.
pub mod Sequence
use Prim.Native.Nat.{Ordering, compare as compare_nat, max}
use llm_api_mind.Base.{
  ℕ, ◌+◌, String, Option, none, some, List, [], ◌∷◌, ◌++◌, ◌==◌, ◌&&◌, ltb, find, filter, take, not,
  if◌then◌else◌,
}
use llm_api_mind.Base.Sorting.{sort_by, then_by, by_time}
use llm_api_mind.Storage.Models.{CognitiveEvent, Database}

abbrev pub max_seq : List CognitiveEvent → ℕ
max_seq [] = 0
max_seq (e ∷ l) = max e.seq (max_seq l)

-- `SELECT max(seq)`, where no row counts as 0
unfoldable pub latest_event_seq : Database → String → ℕ
latest_event_seq db session_id = max_seq (filter (λ e. e.session_id == session_id) db.events)

unfoldable pub next_event_seq : Database → String → ℕ
unfolding latest_event_seq
next_event_seq db session_id = latest_event_seq db session_id + 1

-- `seq` where the caller gives one
abbrev given_seq : Option ℕ → ℕ → ℕ
given_seq none n = n
given_seq (some k) n = k

-- the row is `event` with its sequence number filled in
unfoldable pub add_event : Database → CognitiveEvent → (seq : Option ℕ) → Database
unfolding next_event_seq
add_event db event seq = record db {
  events =
      db.events ++ record event { seq = given_seq seq (next_event_seq db event.session_id) } ∷ [];
}

unfoldable pub get_event : Database → String → Option CognitiveEvent
get_event db event_id = find (λ e. e.id == event_id) db.events

-- `ORDER BY seq, created_at, id`
unfoldable pub by_seq : CognitiveEvent → CognitiveEvent → Ordering
by_seq d e = then_by (compare_nat d.seq e.seq) (by_time d.created_at d.id e.created_at e.id)

unfoldable pub list_events_for_session_after_seq :
    Database → (session_id : String) (after_seq limit : ℕ) → List CognitiveEvent
unfolding by_seq
list_events_for_session_after_seq db session_id after_seq limit =
    take limit
      (sort_by by_seq (filter (λ e. e.session_id == session_id && ltb after_seq e.seq) db.events))
