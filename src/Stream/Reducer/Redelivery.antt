-- ===== src/Stream/Reducer/Redelivery.antt =====
-- Events that `reduce_stream_events` has seen change nothing when they arrive again.
use llm_api_mind.Base.{
  ℕ, ◌+◌, ◌<◌, String, Option, none, some, List, [], ◌∷◌, ◌++◌, true, false, ◌≡◌, refl, sym, ap,
  ◌∙◌, subst, arith, All, ltb, is_some, Bool-cases, Option-cases, inl, inr, ◌||◌, ◌==◌, eq_refl,
}
use mathlib.Core.List.{append-nil}
use llm_api_mind.Base.Sorting.{sort_by, insert_by, before, insert_by_first, insert_by_later}
use llm_api_mind.Chronology.Python.{Python}
use llm_api_mind.Stream.Turns.{ScarletStreamEvent}
use llm_api_mind.Stream.Reducer.{
  Dumps, ReducerState, Cursor, Intake, fingerprint_of, take_new, take_seen, take_in, take_all,
  load_pending, put_event, by_seq, advance, advance_all, last_applied, ids, reduce_stream_events,
}
use llm_api_mind.Stream.Reducer.Delivery.{Above, start, reduce-Delivers}

abbrev pub Known : List (String × String) → ScarletStreamEvent → Type 0
Known fingerprints e = is_some (fingerprint_of fingerprints e.event_id) ≡ true

fingerprint_of-append :
    (l k : List (String × String)) (id : String)
    → is_some (fingerprint_of (l ++ k) id)
      ≡ (is_some (fingerprint_of l id) || is_some (fingerprint_of k id))
fingerprint_of-append [] k id = refl
fingerprint_of-append ((j, f) ∷ l) k id = ground (arith, fingerprint_of-append l k id)

Known-append :
    (l k : List (String × String)) (e : ScarletStreamEvent) → Known l e → Known (l ++ k) e
Known-append l k e h = rw (fingerprint_of-append l k e.event_id, h) refl

Known-last :
    (l : List (String × String)) (e : ScarletStreamEvent) (f : String)
    → Known (l ++ (e.event_id, f) ∷ []) e
Known-last l e f =
    ground (arith, fingerprint_of-append l ((e.event_id, f) ∷ []) e.event_id, eq_refl e.event_id)

module _ (dumps : Dumps) where
  -- Taking in an event learns its fingerprint, or knew it and then keeps the events as they are.
  data Taken (e : ScarletStreamEvent) (i j : Intake) : Type 0 where
    learned :
        j.fingerprints ≡ i.fingerprints ++ (e.event_id, dumps.fingerprint e) ∷ [] → Taken e i j
    knew :
        Known i.fingerprints e → j.fingerprints ≡ i.fingerprints → j.by_id ≡ i.by_id → Taken e i j

  take_new-Taken :
      (e : ScarletStreamEvent) (o : Option ScarletStreamEvent) (i : Intake)
      → Taken e i (take_new dumps e o i)
  take_new-Taken e none i = learned refl
  take_new-Taken e (some existing) i = learned refl

  take_seen-Taken :
      (e : ScarletStreamEvent) (f : String) (i : Intake)
      → Known i.fingerprints e
      → Taken e i (take_seen dumps e f i)
  take_seen-Taken e f i k = elim (Bool-cases (f == dumps.fingerprint e)) [
    | inl h ↦ rw (take_seen, h) (knew k refl refl)
    | inr h ↦ rw (take_seen, h) (knew k refl refl)
  ]

  take_in-Taken : (e : ScarletStreamEvent) (i : Intake) → Taken e i (take_in dumps e i)
  unfolding take_in
  take_in-Taken e i = elim (Option-cases (fingerprint_of i.fingerprints e.event_id)) [
    | inl h ↦ rw (take_in, h) (take_new-Taken e _ i)
    | inr (f, h) ↦ rw (take_in, h) (take_seen-Taken e f i (rw h refl))
  ]

  Known-Taken :
      (d e : ScarletStreamEvent) (i j : Intake)
      → Taken e i j
      → Known i.fingerprints d
      → Known j.fingerprints d
  Known-Taken d e i j (learned h) k = rw h (Known-append i.fingerprints _ d k)
  Known-Taken d e i j (knew known h same) k = rw h k

  Known-own : (e : ScarletStreamEvent) (i j : Intake) → Taken e i j → Known j.fingerprints e
  Known-own e i j (learned h) = rw h (Known-last i.fingerprints e (dumps.fingerprint e))
  Known-own e i j (knew known h same) = rw h known

  take_all-Known :
      (d : ScarletStreamEvent) (events : List ScarletStreamEvent) (i : Intake)
      → Known i.fingerprints d
      → Known (take_all dumps events i).fingerprints d
  unfolding take_all
  take_all-Known d [] i k = k
  take_all-Known d (e ∷ events) i k =
      take_all-Known d events (take_in dumps e i)
        (Known-Taken d e i (take_in dumps e i) (take_in-Taken e i) k)

  take_all-learns :
      (events : List ScarletStreamEvent) (i : Intake)
      → All (Known (take_all dumps events i).fingerprints) events
  unfolding take_all
  take_all-learns [] i = tt
  take_all-learns (e ∷ events) i = (
    take_all-Known e events (take_in dumps e i)
        (Known-own e i (take_in dumps e i) (take_in-Taken e i)),
    take_all-learns events (take_in dumps e i),
  )

  take_seen_keeps :
      (e : ScarletStreamEvent) (f : String) (i : Intake)
      → ((take_seen dumps e f i).by_id ≡ i.by_id)
        × ((take_seen dumps e f i).fingerprints ≡ i.fingerprints)
  take_seen_keeps e f i = elim (Bool-cases (f == dumps.fingerprint e)) [
    | inl h ↦ rw (take_seen, h) (refl, refl)
    | inr h ↦ rw (take_seen, h) (refl, refl)
  ]

  -- a known event adds none
  keeps_events :
      (e : ScarletStreamEvent) (i : Intake)
      → Known i.fingerprints e
      → ((take_in dumps e i).by_id ≡ i.by_id) × ((take_in dumps e i).fingerprints ≡ i.fingerprints)
  unfolding take_in
  keeps_events e i k = elim (Option-cases (fingerprint_of i.fingerprints e.event_id)) [
    | inl h ↦ absurd (ground (arith, k, h))
    | inr (f, h) ↦ rw (take_in, h) (take_seen_keeps e f i)
  ]

  take_all-by_id :
      (events : List ScarletStreamEvent) (i : Intake)
      → All (Known i.fingerprints) events
      → (take_all dumps events i).by_id ≡ i.by_id
  unfolding take_all
  take_all-by_id [] i k = refl
  take_all-by_id (e ∷ events) i k =
      let (same, fingerprints) = keeps_events e i k.0 in
      take_all-by_id events (take_in dumps e i)
        (subst (λ l. All (Known l) events) (sym fingerprints) k.1)
      ∙ same

put_event-Above :
    (n : ℕ) (e : ScarletStreamEvent) (l : List ScarletStreamEvent)
    → n < e.seq
    → Above n l
    → Above n (put_event e l)
unfolding put_event
put_event-Above n e [] h a = (h, tt)
put_event-Above n e (d ∷ l) h a = elim (Bool-cases (d.event_id == e.event_id)) [
  | inl b ↦ rw (put_event, b) (h, a.1)
  | inr b ↦ rw (put_event, b) (a.0, put_event-Above n e l h a.1)
]

load_pending-Above :
    (n : ℕ) (pending l : List ScarletStreamEvent)
    → Above n pending
    → Above n l
    → Above n (load_pending pending l)
unfolding load_pending
load_pending-Above n [] l a b = b
load_pending-Above n (e ∷ pending) l a b =
    load_pending-Above n pending (put_event e l) a.1 (put_event-Above n e l a.0 b)

insert_by-Above :
    (n : ℕ) (e : ScarletStreamEvent) (l : List ScarletStreamEvent)
    → n < e.seq
    → Above n l
    → Above n (insert_by by_seq e l)
unfolding insert_by
insert_by-Above n e [] h a = (h, tt)
insert_by-Above n e (d ∷ l) h a = elim (Bool-cases (before (by_seq e d))) [
  | inl b ↦ subst (Above n) (sym (insert_by_first by_seq e d l b)) (h, a)
  | inr b ↦
      subst (Above n) (sym (insert_by_later by_seq e d l b)) (a.0, insert_by-Above n e l h a.1)
]

sort_by-Above : (n : ℕ) (l : List ScarletStreamEvent) → Above n l → Above n (sort_by by_seq l)
unfolding sort_by
sort_by-Above n [] a = tt
sort_by-Above n (e ∷ l) a = insert_by-Above n e (sort_by by_seq l) a.0 (sort_by-Above n l a.1)

module _ (py : Python) where
  -- an early event waits
  advance_early :
      (e : ScarletStreamEvent) (c : Cursor)
      → c.expected_seq < e.seq
      → advance py e c ≡ record c { pending = c.pending ++ e ∷ [] }
  unfolding advance
  advance_early e c h =
      let not_late : ltb e.seq c.expected_seq ≡ false = ground (arith, h) in
      let is_early : ltb c.expected_seq e.seq ≡ true = ground (arith, h) in
      rw (advance, not_late, is_early) refl

  -- what a run of early events leaves
  advance_all-early :
      (l : List ScarletStreamEvent) (c : Cursor)
      → Above c.expected_seq l
      → advance_all py l c ≡ record c { pending = (advance_all py l c).pending }
  unfolding advance_all
  advance_all-early [] c a = refl
  advance_all-early (e ∷ l) c a =
      subst (λ d. advance_all py l d ≡ record c { pending = (advance_all py l d).pending })
        (sym (advance_early e c a.0))
        (advance_all-early l (record c { pending = c.pending ++ e ∷ [] }) a.1)

  -- Events whose ids are known leave a state alone whose pending events wait for a gap to close.
  seen_again :
      (dumps : Dumps) (events : List ScarletStreamEvent) (s : ReducerState)
      → All (Known s.event_fingerprints) events
      → Above (s.cursor_seq + 1) s.pending_events
      → let r = reduce_stream_events py dumps events s in
        (r.state.turns ≡ s.turns)
        × (r.state.cursor_seq ≡ s.cursor_seq)
        × (r.state.applied_event_ids ≡ s.applied_event_ids)
        × (r.next_expected_seq ≡ s.cursor_seq + 1)
  unfolding reduce_stream_events
  seen_again dumps events s known waiting =
      let i : Intake = record {
        by_id = load_pending s.pending_events [];
        fingerprints = s.event_fingerprints;
        conflicting = s.conflicting_event_ids;
      } in
      let l : List ScarletStreamEvent = (take_all dumps events i).by_id in
      let kept : l ≡ load_pending s.pending_events [] = take_all-by_id dumps events i known in
      let stays = advance_all-early (sort_by by_seq l) (start py s) (
        sort_by-Above (s.cursor_seq + 1) l (
          subst (Above (s.cursor_seq + 1)) (sym kept)
            (load_pending-Above (s.cursor_seq + 1) s.pending_events [] waiting tt))) in
      (
        ap (λ c. c.turns) stays,
        ap (λ c. last_applied py c.newly_applied s.cursor_seq) stays,
        ap (λ c. s.applied_event_ids ++ ids py c.newly_applied) stays
            ∙ append-nil s.applied_event_ids,
        ap (λ c. c.expected_seq) stays,
      )

  fingerprints-Known :
      (dumps : Dumps) (events : List ScarletStreamEvent) (s : ReducerState)
      → All (Known (reduce_stream_events py dumps events s).state.event_fingerprints) events
  unfolding reduce_stream_events
  fingerprints-Known dumps events s = take_all-learns dumps events (record {
    by_id = load_pending s.pending_events [];
    fingerprints = s.event_fingerprints;
    conflicting = s.conflicting_event_ids;
  })

  -- If the events arrive again after a call of the reducer, in the order of that call, then the
  -- second call applies none of them: the turns, the cursor, the applied ids and the next expected
  -- number stay as the first call left them.
  pub redelivery :
      (dumps : Dumps) (events : List ScarletStreamEvent) (s : ReducerState)
      → let r = reduce_stream_events py dumps events s in
        let r' = reduce_stream_events py dumps events r.state in
        (r'.state.turns ≡ r.state.turns)
        × (r'.state.cursor_seq ≡ r.state.cursor_seq)
        × (r'.state.applied_event_ids ≡ r.state.applied_event_ids)
        × (r'.next_expected_seq ≡ r.next_expected_seq)
  redelivery dumps events s =
      let r = reduce_stream_events py dumps events s in
      let d = reduce-Delivers py dumps events s in
      let next : r.next_expected_seq ≡ r.state.cursor_seq + 1 = omega (arith, d.next) in
      let (turns, cursor, applied, expected) =
        seen_again dumps events r.state (fingerprints-Known dumps events s)
          (subst (λ n. Above n r.state.pending_events) next d.waiting) in
      (turns, cursor, applied, expected ∙ sym next)
