-- ===== src/Stream/Replay.antt =====
-- `event_phase` and `replay_session_events` of backend/app/api/chat_stream_v2.py. A page holds the
-- persisted events; their projection to the client's fields is not modelled.

use text.Mathlib.Text.{starts_with}
use llm_api_mind.Base.{
  ℕ, ◌+◌, String, Option, none, some, List, Bool, ◌||◌, ◌==◌, ltb, length, take, last?,
  if◌then◌else◌,
}
use llm_api_mind.Storage.Models.{CognitiveEvent, Database}
use llm_api_mind.Storage.Events.{latest_event_seq, list_events_for_session_after_seq}

pub data Phase : Type 0 where
  created streaming executing completed persisted failed : Phase

-- `text.endswith(suffix)`
unfoldable pub ends_with : String → String → Bool
ends_with String.[] suffix = String.[] == suffix
ends_with (String.◌∷◌ c s) suffix = String.◌∷◌ c s == suffix || ends_with s suffix

unfoldable pub event_phase : CognitiveEvent → Phase
unfolding ends_with
event_phase e =
    if e.type == "turn.started"
    then created
    else if ends_with e.type ".failed" || e.status == "failed"
    then failed
    else if ends_with e.type ".persisted"
    then persisted
    else if ends_with e.type ".started" || e.status == "active"
    then (if starts_with e.type "mind.tool_call" then executing else streaming)
    else completed

pub record StreamReplayCursor : Type 0 where
  pub requested_after_seq : ℕ
  pub next_after_seq : ℕ
  pub latest_seq : ℕ
  pub has_more : Bool

pub record ReplayPage : Type 0 where
  pub events : List CognitiveEvent
  pub cursor : StreamReplayCursor

-- `page[-1].seq if page else after_seq`
abbrev pub last_seq : Option CognitiveEvent → ℕ → ℕ
last_seq none after_seq = after_seq
last_seq (some e) after_seq = e.seq

unfoldable pub replay_session_events :
    Database → (session_id : String) (after_seq limit : ℕ) → ReplayPage
replay_session_events db session_id after_seq limit =
    let fetched = list_events_for_session_after_seq db session_id after_seq (limit + 1) in
    let page = take limit fetched in
    let latest = latest_event_seq db session_id in
    let next = last_seq (last? page) after_seq in
    record {
      events = page;
      cursor = record {
        requested_after_seq = after_seq;
        next_after_seq = next;
        latest_seq = latest;
        has_more = ltb limit (length fetched) || ltb next latest;
      };
    }
