-- ===== src/Storage/Events/Sequence.antt =====
-- Event sequence numbers are unique and grow in each session.
use llm_api_mind.Base.{
  ℕ, ◌+◌, ◌<◌, String, none, List, [], ◌∷◌, ◌++◌, true, false, ◌≡◌, sym, filter-keep, filter-reject,
  filter-append, subst, arith, filter, ◌==◌, eq_iff, Bool-cases, inl, inr,
}
use mathlib.Core.List.{append-nil}
use llm_api_mind.Storage.Models.{CognitiveEvent, Database}
use llm_api_mind.Storage.Events.{max_seq, latest_event_seq, next_event_seq, add_event}

abbrev pub events_of : String → List CognitiveEvent → List CognitiveEvent
events_of s = filter (λ e. e.session_id == s)

-- the sequence numbers of a list go up, from above `n`
abbrev pub Ascends : ℕ → List CognitiveEvent → Type 0
Ascends n [] = Unit
Ascends n (e ∷ l) = (n < e.seq) × Ascends e.seq l

events_of-append :
    (s : String) (l k : List CognitiveEvent) → events_of s (l ++ k) ≡ events_of s l ++ events_of s k
events_of-append s l k = filter-append (λ d. d.session_id == s) l k

Ascends-snoc :
    (n : ℕ) (l : List CognitiveEvent) (e : CognitiveEvent)
    → Ascends n l
    → n < e.seq
    → max_seq l < e.seq
    → Ascends n (l ++ e ∷ [])
Ascends-snoc n [] e a lt above = (lt, tt)
Ascends-snoc n (d ∷ l) e a lt above = (a.0, Ascends-snoc d.seq l e a.1 (omega arith) (omega arith))

own_event :
    (s : String) (e : CognitiveEvent) → (e.session_id == s) ≡ true → events_of s (e ∷ []) ≡ e ∷ []
own_event s e h = filter-keep (λ d. d.session_id == s) e [] h

foreign_event :
    (s : String) (e : CognitiveEvent) → (e.session_id == s) ≡ false → events_of s (e ∷ []) ≡ []
foreign_event s e h = filter-reject (λ d. d.session_id == s) e [] h

below_next :
    (t s : String) (events : List CognitiveEvent)
    → (t == s) ≡ true
    → max_seq (events_of s events) < max_seq (events_of t events) + 1
below_next t s events same =
    subst (λ r. max_seq (events_of r events) < max_seq (events_of t events) + 1)
      ((eq_iff t s).0 same) (omega arith)

-- Where the events of every session stand in ascending order, they do so after an event is added
-- with the next sequence number, which is above every earlier one of its session.
pub add_event-Ascends :
    (db : Database) (event : CognitiveEvent)
    → ((s : String) → Ascends 0 (events_of s db.events))
    → (s : String) → Ascends 0 (events_of s (add_event db event none).events)
unfolding add_event next_event_seq latest_event_seq
add_event-Ascends db event up s =
    let e : CognitiveEvent = record event {
      seq = max_seq (events_of event.session_id db.events) + 1;
    } in
    subst (Ascends 0) (sym (events_of-append s db.events (e ∷ [])))
      (elim (Bool-cases (event.session_id == s)) [
        | inl own ↦
            subst (λ l. Ascends 0 (events_of s db.events ++ l)) (sym (own_event s e own))
              (Ascends-snoc 0 (events_of s db.events) e (up s) (omega arith)
                (below_next event.session_id s db.events own))
        | inr other ↦
            subst (λ l. Ascends 0 (events_of s db.events ++ l)) (sym (foreign_event s e other))
              (subst (Ascends 0) (sym (append-nil (events_of s db.events))) (up s))
      ])
