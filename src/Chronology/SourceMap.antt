-- ===== src/Chronology/SourceMap.antt =====
-- `build_chronology_source_map`, `_unavailable_source_map` and `_empty_source_map` of
-- backend/app/runtime/history_compaction.py.
pub mod Sound
pub mod Complete
use Prim.Native.String.{count, len}
use llm_api_mind.Base.{
  ℕ, String, Option, none, some, List, [], ◌∷◌, ◌++◌, map, Bool, true, false, ◌&&◌, ◌==◌, length,
  drop, head?, last?, init, is_some, if◌then◌else◌, not,
}
use llm_api_mind.Base.Json.{Json, Fields, get}
use llm_api_mind.Storage.Models.{Turn, Message, Trace, Database}
use llm_api_mind.Storage.Sessions.{
  get_chat_session, list_turns_for_session, list_traces_for_turn, list_messages_for_turn,
}
use llm_api_mind.Chronology.Python.{Python}
use llm_api_mind.Chronology.Messages.{
  ProviderMessage, provider_messages, latest_trace, tool_call_ids, message_eq, messages_eq,
  is_prefix, estimate_tokens, json, digest,
}

pub data Reason : Type 0 where
  session_not_found canonical_provider_history_unavailable llm_request_trace_missing : Reason
  request_provider_messages_invalid provider_history_prefix_mismatch : Reason
  provider_history_turn_boundary_mismatch current_user_message_not_preserved : Reason

-- one entry of `turns`
pub record MappedTurn : Type 0 where
  pub turn_id : String
  pub message_ids : List String
  pub tool_call_ids : List String
  pub request_trace_id : String
  pub response_trace_id : Option String
  pub provider_messages : List ProviderMessage
  pub provider_message_count : ℕ
  pub json_chars : ℕ
  pub utf8_bytes : ℕ
  pub estimated_tokens : ℕ
  pub sha256 : String

-- `none` for the messages is the missing key of `_empty_source_map`.
pub record LegacyPrefix : Type 0 where
  pub provider_messages : Option (List ProviderMessage)
  pub provider_message_count : ℕ
  pub json_chars : ℕ
  pub estimated_tokens : ℕ
  pub sha256 : Option String

pub record MappedHistory : Type 0 where
  pub canonical_history_sha256 : String
  pub canonical_provider_message_count : ℕ
  pub canonical_json_chars : ℕ
  pub canonical_estimated_tokens : ℕ
  pub mapped_provider_message_count : ℕ
  pub legacy_prefix : LegacyPrefix
  pub turn_count : ℕ
  pub turns : List MappedTurn
  pub mapping_verified : Bool

pub record Failure : Type 0 where
  pub reason : Reason
  pub failed_turn_id : Option String
  pub failed_trace_id : Option String

-- The two shapes of the dict; `mapped` is the one with a measured history.
pub data SourceMap : Type 0 where
  unavailable : Failure → SourceMap
  mapped : MappedHistory → SourceMap

-- `source_map["status"] == "complete"`
abbrev pub is_complete : SourceMap → Bool
is_complete (unavailable f) = false
is_complete (mapped m) = m.mapping_verified

-- A run raises `TypeError`, returns early, or goes on.
pub data Run {ℓ} (A : Type ℓ) : Type ℓ where
  type_error : Run A
  failed : Failure → Run A
  ok : A → Run A

infixl 5 ◌>>=◌ ◌>>◌
abbrev pub ◌>>=◌ {ℓ κ} : {A : Type ℓ} {B : Type κ} → Run A → (A → Run B) → Run B
type_error >>= next = type_error
failed reason >>= next = failed reason
ok value >>= next = next value

abbrev pub ◌>>◌ {ℓ} : {A : Type ℓ} → Run (Unit {0}) → Run A → Run A
type_error >> rest = type_error
failed reason >> rest = failed reason
ok value >> rest = rest

abbrev pub require : Bool → Failure → Run (Unit {0})
require true f = ok tt
require false f = failed f

abbrev pub hashed : Option (List ProviderMessage) → Run (List ProviderMessage)
hashed none = type_error
hashed (some l) = ok l

abbrev pub found {ℓ} : {A : Type ℓ} → Option A → Failure → Run A
found none f = failed f
found (some a) f = ok a

-- `(turn, request_trace, provider_messages)`
pub record Snapshot : Type 0 where
  pub turn : Turn
  pub trace : Trace
  pub messages : List ProviderMessage

abbrev pub at_turn : Reason → Turn → Failure
at_turn r turn = record { reason = r; failed_turn_id = some turn.id; failed_trace_id = none }

abbrev pub at_trace : Reason → Turn → Trace → Failure
at_trace r turn trace = record {
  reason = r;
  failed_turn_id = some turn.id;
  failed_trace_id = some trace.id;
}

abbrev pub at_session : Reason → Failure
at_session r = record { reason = r; failed_turn_id = none; failed_trace_id = none }

-- the canonical messages of a request, where the payload has them
unfoldable pub requested : Fields → Option Json
requested payload =
    if is_some (get payload "canonical_provider_messages")
    then get payload "canonical_provider_messages"
    else get payload "provider_messages"

abbrev pub ends_with_user : Option ProviderMessage → Bool
ends_with_user none = false
ends_with_user (some m) = m.role == "user"

-- the body of the first loop
unfoldable pub snapshot : Database → Turn → Run Snapshot
unfolding requested
snapshot db turn = do
  trace ←
      found (latest_trace (list_traces_for_turn db turn.id) "llm.request")
        (at_turn llm_request_trace_missing turn)
  messages ← hashed (provider_messages (requested trace.payload_json))
  require (ends_with_user (last? messages)) (at_trace request_provider_messages_invalid turn trace)
  ok (record { turn = turn; trace = trace; messages = messages })

unfoldable pub snapshots : Database → List Turn → Run (List Snapshot)
snapshots db [] = ok []
snapshots db (turn ∷ turns) =
    let rest = snapshots db turns in do s ← snapshot db turn; l ← rest; ok (s ∷ l)

abbrev pub trace_id : Option Trace → Option String
trace_id none = none
trace_id (some t) = some t.id

-- The variables of the second loop.
pub record Walk : Type 0 where
  pub legacy : List ProviderMessage
  pub mapped : List ProviderMessage
  pub units : List MappedTurn

abbrev pub segments : List MappedTurn → List ProviderMessage
segments [] = []
segments (u ∷ us) = u.provider_messages ++ segments us

module _ (py : Python) where
  unfoldable pub mapped_turn : Database → Snapshot → List ProviderMessage → MappedTurn
  mapped_turn db s segment =
      let serialized = json py segment in
      let response = latest_trace (list_traces_for_turn db s.turn.id) "llm.response" in
      record {
        turn_id = s.turn.id;
        message_ids = map (λ m. m.id) (list_messages_for_turn db s.turn.id);
        tool_call_ids = tool_call_ids py response;
        request_trace_id = s.trace.id;
        response_trace_id = trace_id response;
        provider_messages = segment;
        provider_message_count = length segment;
        json_chars = count serialized;
        utf8_bytes = len serialized;
        estimated_tokens = estimate_tokens py (count serialized);
        sha256 = digest py segment;
      }

  -- `segment and segment[0] == request_messages[-1]`
  abbrev pub keeps_user : Option ProviderMessage → Option ProviderMessage → Bool
  keeps_user (some m) (some n) = message_eq py m n
  keeps_user _ _ = false

  -- `if index == 0 and before: … elif before != mapped_messages: …`
  unfoldable pub align : Bool → List ProviderMessage → Snapshot → Walk → Run Walk
  align true (m ∷ before) s w =
      ok (record w { legacy = m ∷ before; mapped = w.mapped ++ m ∷ before })
  align first before s w = do
    require (messages_eq py before w.mapped)
        (at_trace provider_history_turn_boundary_mismatch s.turn s.trace)
    ok w

  -- `request_snapshots[index + 1][2][:-1]`, or the canonical history behind the last turn
  abbrev pub following : List ProviderMessage → List Snapshot → List ProviderMessage
  following canonical [] = canonical
  following canonical (s ∷ rest) = init s.messages

  -- `units.append(…)` and `mapped_messages.extend(segment)`
  abbrev pub extend : Database → Snapshot → List ProviderMessage → Walk → Walk
  extend db s segment w = record w {
    units = w.units ++ mapped_turn db s segment ∷ [];
    mapped = w.mapped ++ segment;
  }

  -- the body of the second loop
  unfoldable pub visit :
      Database → Bool → Snapshot → (after : List ProviderMessage) → Walk → Run Walk
  visit db first s after w = do
    require (is_prefix py (init s.messages) after)
        (at_trace provider_history_prefix_mismatch s.turn s.trace)
    w' ← align first (init s.messages) s w
    require (keeps_user (head? (drop (length (init s.messages)) after)) (last? s.messages))
        (at_trace current_user_message_not_preserved s.turn s.trace)
    ok (extend db s (drop (length (init s.messages)) after) w')

  unfoldable pub walk : Database → List ProviderMessage → Bool → Walk → List Snapshot → Run Walk
  walk db canonical first w [] = ok w
  walk db canonical first w (s ∷ rest) = do
    w' ← visit db first s (following canonical rest) w
    walk db canonical false w' rest

  abbrev pub is_empty {ℓ} : {A : Type ℓ} → List A → Bool
  is_empty [] = true
  is_empty (x ∷ xs) = false

  unfoldable pub legacy_of : List ProviderMessage → LegacyPrefix
  legacy_of [] = record {
    provider_messages = some [];
    provider_message_count = 0;
    json_chars = 0;
    estimated_tokens = 0;
    sha256 = none;
  }
  legacy_of (m ∷ l) = record {
    provider_messages = some (m ∷ l);
    provider_message_count = length (m ∷ l);
    json_chars = count (json py (m ∷ l));
    estimated_tokens = estimate_tokens py (count (json py (m ∷ l)));
    sha256 = some (digest py (m ∷ l));
  }

  -- the dict that the function ends with
  unfoldable pub history_of : List ProviderMessage → Walk → MappedHistory
  history_of canonical w = record {
    canonical_history_sha256 = digest py canonical;
    canonical_provider_message_count = length canonical;
    canonical_json_chars = count (json py canonical);
    canonical_estimated_tokens = estimate_tokens py (count (json py canonical));
    mapped_provider_message_count = length w.mapped;
    legacy_prefix = legacy_of w.legacy;
    turn_count = length w.units;
    turns = w.units;
    mapping_verified = messages_eq py w.mapped canonical;
  }

  -- `_empty_source_map`
  unfoldable pub empty_history : MappedHistory
  empty_history = record {
    canonical_history_sha256 = digest py [];
    canonical_provider_message_count = 0;
    canonical_json_chars = count (json py []);
    canonical_estimated_tokens = 0;
    mapped_provider_message_count = 0;
    legacy_prefix = record {
      provider_messages = none;
      provider_message_count = 0;
      json_chars = 0;
      estimated_tokens = 0;
      sha256 = none;
    };
    turn_count = 0;
    turns = [];
    mapping_verified = true;
  }

  abbrev pub start : Walk
  start = record { legacy = []; mapped = []; units = [] }

  -- what follows the reading of the session and of its completed turns
  unfoldable pub map_history : Database → List ProviderMessage → List Turn → Run MappedHistory
  map_history db [] [] = ok empty_history
  map_history db [] (t ∷ turns) = failed (at_session canonical_provider_history_unavailable)
  map_history db (m ∷ canonical) turns = do
    requests ← snapshots db turns
    w ← walk db (m ∷ canonical) true start requests
    ok (history_of (m ∷ canonical) w)

  -- `build_chronology_source_map`; its early returns are the `failed` runs
  unfoldable pub build_chronology_source_map : Database → String → Run MappedHistory
  build_chronology_source_map db session_id = do
    session ← found (get_chat_session db session_id) (at_session session_not_found)
    canonical ← hashed (provider_messages (some session.provider_history_json))
    map_history db canonical (list_turns_for_session db session_id (some "completed") none)

  -- the dict that the caller gets, unless the call raises
  unfoldable pub source_map : Database → String → Option SourceMap
  source_map db session_id = elim (build_chronology_source_map db session_id) [
    | type_error ↦ none
    | failed f ↦ some (unavailable f)
    | ok m ↦ some (mapped m)
  ]
