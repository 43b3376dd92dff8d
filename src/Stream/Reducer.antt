-- ===== src/Stream/Reducer.antt =====
-- `reduce_stream_events` and `_missing_ranges` of backend/app/api/chat_stream_v2.py.
pub mod Delivery
pub mod Redelivery
use Prim.Native.Nat.{Ordering, compare as compare_nat}
use Prim.Native.String.{compare as compare_text}
use llm_api_mind.Base.{
  ℕ, suc, ◌+◌, ◌-◌, String, Option, none, some, List, [], ◌∷◌, ◌++◌, map, Bool, true, false, ◌==◌,
  ltb, leb, is_some, contains, filter, nat_eq, not, if◌then◌else◌,
}
use llm_api_mind.Base.Sets.{once}
use llm_api_mind.Base.Sorting.{sort_by, then_by, sorted}
use llm_api_mind.Chronology.Python.{Python}
use llm_api_mind.Stream.Turns.{ScarletStreamEvent, Turns, apply_turn_event}

-- What the reducer takes from `json` and `pydantic`: the text of an event, and whether two events
-- dump to the same dict.
pub record Dumps : Type 0 where
  pub fingerprint : ScarletStreamEvent → String
  pub same : ScarletStreamEvent → ScarletStreamEvent → Bool

-- the state that one call hands to the next
pub record ReducerState : Type 0 where
  pub cursor_seq : ℕ
  pub applied_event_ids : List String
  pub pending_events : List ScarletStreamEvent
  pub conflicting_event_ids : List String
  pub sequence_conflicts : List ℕ
  pub event_fingerprints : List (String × String)
  pub turns : Turns

pub record Reduction : Type 0 where
  pub state : ReducerState
  pub next_expected_seq : ℕ
  pub pending_event_ids : List String
  pub missing_seq_ranges : List (ℕ × ℕ)

-- the variables of the loop that takes the events in
pub record Intake : Type 0 where
  pub by_id : List ScarletStreamEvent
  pub fingerprints : List (String × String)
  pub conflicting : List String

abbrev pub fingerprint_of : List (String × String) → String → Option String
fingerprint_of [] id = none
fingerprint_of ((j, f) ∷ d) id = if j == id then some f else fingerprint_of d id

abbrev pub event_of : List ScarletStreamEvent → String → Option ScarletStreamEvent
event_of [] id = none
event_of (e ∷ l) id = if e.event_id == id then some e else event_of l id

-- `by_id[event.event_id] = event`
unfoldable pub put_event : ScarletStreamEvent → List ScarletStreamEvent → List ScarletStreamEvent
put_event e [] = e ∷ []
put_event e (d ∷ l) = if d.event_id == e.event_id then e ∷ l else d ∷ put_event e l

-- the loop over the pending events of the state
unfoldable pub load_pending :
    List ScarletStreamEvent → List ScarletStreamEvent → List ScarletStreamEvent
unfolding put_event
load_pending [] by_id = by_id
load_pending (e ∷ pending) by_id = load_pending pending (put_event e by_id)

module _ (dumps : Dumps) where
  -- an event whose id has no fingerprint yet
  abbrev pub take_new : ScarletStreamEvent → Option ScarletStreamEvent → Intake → Intake
  take_new e none i = record i {
    by_id = i.by_id ++ e ∷ [];
    fingerprints = i.fingerprints ++ (e.event_id, dumps.fingerprint e) ∷ [];
  }
  take_new e (some existing) i = record i {
    fingerprints = i.fingerprints ++ (e.event_id, dumps.fingerprint e) ∷ [];
    conflicting = if dumps.same existing e then i.conflicting else i.conflicting ++ e.event_id ∷ [];
  }

  abbrev pub take_seen : ScarletStreamEvent → String → Intake → Intake
  take_seen e known i =
      if known == dumps.fingerprint e
      then i
      else record i { conflicting = i.conflicting ++ e.event_id ∷ [] }

  unfoldable pub take_in : ScarletStreamEvent → Intake → Intake
  take_in e i = elim (fingerprint_of i.fingerprints e.event_id) [
    | some known ↦ take_seen e known i
    | none ↦ take_new e (event_of i.by_id e.event_id) i
  ]

  unfoldable pub take_all : List ScarletStreamEvent → Intake → Intake
  unfolding take_in
  take_all [] i = i
  take_all (e ∷ events) i = take_all events (take_in e i)

-- the variables of the loop over the ordered events
pub record Cursor : Type 0 where
  pub expected_seq : ℕ
  pub pending : List ScarletStreamEvent
  pub newly_applied : List ScarletStreamEvent
  pub sequence_conflicts : List ℕ
  pub turns : Turns

-- the numbers of a set, each once
unfoldable pub unique_seqs : List ℕ → List ℕ
unique_seqs [] = []
unique_seqs (n ∷ l) = n ∷ filter (λ m. not (nat_eq m n)) (unique_seqs l)

-- by `(seq, event_id)`
unfoldable pub by_seq : ScarletStreamEvent → ScarletStreamEvent → Ordering
by_seq d e = then_by (compare_nat d.seq e.seq) (compare_text d.event_id e.event_id)

-- `_missing_ranges`, from the pending events in their order
abbrev pub missing_ranges : ℕ → List ScarletStreamEvent → List (ℕ × ℕ)
missing_ranges start [] = []
missing_ranges start (e ∷ pending) = if leb e.seq start then [] else (start, e.seq - 1) ∷ []

module _ (py : Python) where
  unfoldable pub advance : ScarletStreamEvent → Cursor → Cursor
  unfolding apply_turn_event
  advance e c =
      if ltb e.seq c.expected_seq
      then record c { sequence_conflicts = c.sequence_conflicts ++ e.seq ∷ [] }
      else if ltb c.expected_seq e.seq
      then record c { pending = c.pending ++ e ∷ [] }
      else record c {
        newly_applied = c.newly_applied ++ e ∷ [];
        expected_seq = c.expected_seq + 1;
        turns = apply_turn_event py c.turns e;
      }

  unfoldable pub advance_all : List ScarletStreamEvent → Cursor → Cursor
  unfolding advance
  advance_all [] c = c
  advance_all (e ∷ events) c = advance_all events (advance e c)

  abbrev last_applied : List ScarletStreamEvent → ℕ → ℕ
  last_applied [] cursor = cursor
  last_applied (e ∷ []) cursor = e.seq
  last_applied (e ∷ d ∷ l) cursor = last_applied (d ∷ l) cursor

  abbrev pub ids : List ScarletStreamEvent → List String
  ids = map (λ e. e.event_id)

  -- `reduce_stream_events`.
  unfoldable pub reduce_stream_events : Dumps → List ScarletStreamEvent → ReducerState → Reduction
  unfolding take_all advance_all by_seq load_pending unique_seqs once
  reduce_stream_events dumps events s =
      let i = take_all dumps events (record {
        by_id = load_pending s.pending_events [];
        fingerprints = s.event_fingerprints;
        conflicting = s.conflicting_event_ids;
      }) in
      let c = advance_all (sort_by by_seq i.by_id) (record {
        expected_seq = s.cursor_seq + 1;
        pending = [];
        newly_applied = [];
        sequence_conflicts = s.sequence_conflicts;
        turns = s.turns;
      }) in
      record {
        state = record {
          cursor_seq = last_applied c.newly_applied s.cursor_seq;
          applied_event_ids = s.applied_event_ids ++ ids c.newly_applied;
          pending_events = c.pending;
          conflicting_event_ids = sorted (once [] i.conflicting);
          sequence_conflicts = sort_by compare_nat (unique_seqs c.sequence_conflicts);
          event_fingerprints = i.fingerprints;
          turns = c.turns;
        };
        next_expected_seq = c.expected_seq;
        pending_event_ids = ids c.pending;
        missing_seq_ranges = missing_ranges c.expected_seq c.pending;
      }
