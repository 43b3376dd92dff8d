-- ===== src/Storage/SummaryStates.antt =====
-- `SessionSummaryState`, `list_session_summary_states`, `latest_message_for_turn` and
-- `latest_turn_for_session` of backend/app/storage/repository/sessions.py.
use Prim.Native.Nat.{Ordering, compare as compare_nat}
use Prim.Native.String.{compare as compare_text}
use llm_api_mind.Base.{
  ℕ, String, Option, none, some, List, [], ◌∷◌, map, Bool, true, ◌==◌, ◌&&◌, ◌||◌, not, filter,
  length, head?, limited, flat_map, matches, once, if◌then◌else◌,
}
use mathlib.Core.Option
use llm_api_mind.Base.Sorting.{sort_by, then_by, by_time}
use llm_api_mind.Storage.Models.{ChatSession, SessionSummary, Turn, Message, Database, is_text}

pub record SessionSummaryState : Type 0 where
  pub chat_session : ChatSession
  pub summary : Option SessionSummary
  pub last_message_id : Option String
  pub last_message_at : Option ℕ
  pub turn_count : ℕ
  pub latest_turn_id : Option String
  pub latest_turn_status : Option String

abbrev compared : Option SessionSummary → String → String
compared none m = "missing"
compared (some s) m = if is_text s.last_message_id m then "current" else "stale"

abbrev classified : Option String → Option SessionSummary → String
classified none s = "empty"
classified (some m) s = compared s m

unfoldable pub summary_state : SessionSummaryState → String
summary_state s = classified s.last_message_id s.summary

-- newest first
abbrev pub newest_message : Message → Message → Ordering
newest_message m n = by_time n.created_at n.id m.created_at m.id

abbrev pub newest_turn : Turn → Turn → Ordering
newest_turn t u = by_time u.started_at u.id t.started_at t.id

unfoldable pub latest_message_for_turn :
    Database → (turn_id : String) → (role : Option String) → Option Message
latest_message_for_turn db turn_id role = head? (
    sort_by newest_message
      (filter (λ m. is_text m.turn_id turn_id && matches role m.role) db.messages))

unfoldable pub latest_turn_for_session : Database → String → Option Turn
latest_turn_for_session db session_id =
    head? (sort_by newest_turn (filter (λ t. t.session_id == session_id) db.turns))

-- the messages of the user and of the assistant in a session
unfoldable pub visible_messages : Database → String → List Message
visible_messages db session_id =
    filter (λ m. m.session_id == session_id && (m.role == "user" || m.role == "assistant"))
      db.messages

abbrev listed : Option String → List String
listed none = []
listed (some t) = t ∷ []

-- `COUNT(DISTINCT turn_id)`, which skips NULL
unfoldable pub turn_count : Database → String → ℕ
unfolding visible_messages
turn_count db session_id =
    length (once [] (flat_map (λ m. listed m.turn_id) (visible_messages db session_id)))

unfoldable pub state_of : Database → ChatSession → Option SessionSummary → SessionSummaryState
unfolding visible_messages turn_count latest_turn_for_session
state_of db s summary =
    let message : Option Message = head? (sort_by newest_message (visible_messages db s.id)) in
    let turn : Option Turn = latest_turn_for_session db s.id in
    record {
      chat_session = s;
      summary = summary;
      last_message_id = Option.map (λ m. m.id) message;
      last_message_at = Option.map (λ m. m.created_at) message;
      turn_count = turn_count db s.id;
      latest_turn_id = Option.map (λ t. t.id) turn;
      latest_turn_status = Option.map (λ t. t.status) turn;
    }

-- the rows of an outer join for one session: one without a summary where there is none
abbrev joined : List SessionSummary → List (Option SessionSummary)
joined [] = none ∷ []
joined (s ∷ l) = some s ∷ map some l

-- `DESC`, where SQLite puts NULL last
abbrev newest_time : Option ℕ → Option ℕ → Ordering
newest_time none none = Ordering.eq
newest_time none (some u) = Ordering.gt
newest_time (some t) none = Ordering.lt
newest_time (some t) (some u) = compare_nat u t

abbrev pub by_activity : SessionSummaryState → SessionSummaryState → Ordering
by_activity s t = then_by (newest_time s.last_message_at t.last_message_at) (
    then_by (compare_nat t.chat_session.created_at s.chat_session.created_at)
      (compare_text s.chat_session.id t.chat_session.id))

abbrev kept : Option String → ChatSession → Bool
kept none s = true
kept (some x) s = not (s.id == x)

unfoldable pub list_session_summary_states :
    Database → (exclude_session_id : Option String) → (limit : Option ℕ) → List SessionSummaryState
unfolding state_of
list_session_summary_states db exclude limit = limited limit (
    sort_by by_activity (
      flat_map (λ s. map (state_of db s) (joined (filter (λ x. x.session_id == s.id) db.summaries)))
        (filter (kept exclude) db.sessions)))
