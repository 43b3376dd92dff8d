-- ===== src/Stream/Reducer/Delivery.antt =====
-- What `reduce_stream_events` delivers: a gapless run of events, each applied once.
use llm_api_mind.Base.{
  ℕ, suc, ◌+◌, ◌≤◌, ◌<◌, List, [], ◌∷◌, ◌++◌, true, false, ◌≡◌, refl, sym, ap, ◌∙◌, subst, arith,
  length, length-append, All, ltb, ltb→lt, ltb→ge, Bool-cases, ◌⊎◌, inl, inr,
}
use llm_api_mind.Base.Sorting.{sort_by, insert_by, insert_by_first, insert_by_later, before}
use llm_api_mind.Chronology.Python.{Python}
use llm_api_mind.Stream.Turns.{ScarletStreamEvent, Turns, apply_turn_event}
use llm_api_mind.Stream.Reducer.{
  Dumps, ReducerState, Reduction, Cursor, Intake, take_all, load_pending, by_seq, advance,
  advance_all, last_applied, ids, reduce_stream_events,
}

-- sequence numbers that count up by one after `n`
abbrev pub Consecutive : ℕ → List ScarletStreamEvent → Type 0
Consecutive n [] = Unit
Consecutive n (e ∷ l) = (e.seq ≡ suc n) × Consecutive (suc n) l

-- sequence numbers that do not go down, from `n` on
abbrev pub Rising : ℕ → List ScarletStreamEvent → Type 0
Rising n [] = Unit
Rising n (e ∷ l) = (n ≤ e.seq) × Rising e.seq l

abbrev pub Above : ℕ → List ScarletStreamEvent → Type 0
Above n = All (λ e. n < e.seq)

Rising-weaken : (m n : ℕ) (l : List ScarletStreamEvent) → m ≤ n → Rising n l → Rising m l
Rising-weaken m n [] le r = tt
Rising-weaken m n (e ∷ l) le r = (omega (arith, le, r.0), r.1)

before-le : (d e : ScarletStreamEvent) → before (by_seq d e) ≡ true → d.seq ≤ e.seq
unfolding by_seq
before-le d e h = ground arith

before-ge : (d e : ScarletStreamEvent) → before (by_seq d e) ≡ false → e.seq ≤ d.seq
unfolding by_seq
before-ge d e h = ground arith

insert_by-Rising :
    (n : ℕ) (e : ScarletStreamEvent) (l : List ScarletStreamEvent)
    → n ≤ e.seq
    → Rising n l
    → Rising n (insert_by by_seq e l)
unfolding insert_by
insert_by-Rising n e [] le r = (le, tt)
insert_by-Rising n e (d ∷ l) le r = elim (Bool-cases (before (by_seq e d))) [
  | inl h ↦ subst (Rising n) (sym (insert_by_first by_seq e d l h)) (le, (before-le e d h, r.1))
  | inr h ↦
      subst (Rising n) (sym (insert_by_later by_seq e d l h))
        (r.0, insert_by-Rising d.seq e l (before-ge e d h) r.1)
]

pub sort_by-Rising : (l : List ScarletStreamEvent) → Rising 0 (sort_by by_seq l)
unfolding sort_by
sort_by-Rising [] = tt
sort_by-Rising (e ∷ l) = insert_by-Rising 0 e (sort_by by_seq l) (omega arith) (sort_by-Rising l)

module _ (py : Python) where
  -- the turns after a run of events
  abbrev pub fold_turns : List ScarletStreamEvent → Turns → Turns
  fold_turns [] turns = turns
  fold_turns (e ∷ l) turns = fold_turns l (apply_turn_event py turns e)

  data Step : ScarletStreamEvent → Cursor → Cursor → Type 0 where
    late :
        {e : ScarletStreamEvent} {c : Cursor}
        → e.seq < c.expected_seq
        → Step e c (record c { sequence_conflicts = c.sequence_conflicts ++ e.seq ∷ [] })
    early :
        {e : ScarletStreamEvent} {c : Cursor}
        → c.expected_seq < e.seq
        → Step e c (record c { pending = c.pending ++ e ∷ [] })
    due :
        {e : ScarletStreamEvent} {c : Cursor}
        → e.seq ≡ c.expected_seq
        → Step e c (record c {
          newly_applied = c.newly_applied ++ e ∷ [];
          expected_seq = c.expected_seq + 1;
          turns = apply_turn_event py c.turns e;
        })

  advance_cases : (e : ScarletStreamEvent) (c : Cursor) → Step e c (advance py e c)
  unfolding advance
  advance_cases e c = elim (Bool-cases (ltb e.seq c.expected_seq)) [
    | inl h ↦ rw h (late (ltb→lt e.seq c.expected_seq h))
    | inr h ↦ elim (Bool-cases (ltb c.expected_seq e.seq)) [
      | inl g ↦ rw (h, g) (early (ltb→lt c.expected_seq e.seq g))
      | inr g ↦
          rw (h, g)
            (due (omega (arith, ltb→ge e.seq c.expected_seq h, ltb→ge c.expected_seq e.seq g)))
    ]
  ]

  -- What holds between two rounds of the loop: `applied` is what this call has applied so far, from
  -- the cursor `n` and the turns `t`, and the events to come have sequence numbers from `low` on.
  record Running (n : ℕ) (t : Turns) (low : ℕ) (c : Cursor) : Type 0 where
    in_order : Consecutive n c.newly_applied
    next : c.expected_seq ≡ suc (n + length c.newly_applied)
    folded : c.turns ≡ fold_turns c.newly_applied t
    waiting : Above c.expected_seq c.pending
    settled : (c.pending ≡ []) ⊎ (c.expected_seq < low)

  Consecutive-snoc :
      (n : ℕ) (l : List ScarletStreamEvent) (e : ScarletStreamEvent)
      → Consecutive n l
      → e.seq ≡ suc (n + length l)
      → Consecutive n (l ++ e ∷ [])
  Consecutive-snoc n [] e c h = (omega (arith, h), tt)
  Consecutive-snoc n (d ∷ l) e c h = (c.0, Consecutive-snoc (suc n) l e c.1 (omega (arith, h)))

  Above-snoc :
      (n : ℕ) (l : List ScarletStreamEvent) (e : ScarletStreamEvent)
      → Above n l
      → n < e.seq
      → Above n (l ++ e ∷ [])
  Above-snoc n [] e a h = (h, tt)
  Above-snoc n (d ∷ l) e a h = (a.0, Above-snoc n l e a.1 h)

  fold_turns-append :
      (l : List ScarletStreamEvent) (e : ScarletStreamEvent) (t : Turns)
      → fold_turns (l ++ e ∷ []) t ≡ apply_turn_event py (fold_turns l t) e
  fold_turns-append [] e t = refl
  fold_turns-append (d ∷ l) e t = fold_turns-append l e (apply_turn_event py t d)

  settled_late :
      (low : ℕ) (e : ScarletStreamEvent) (c : Cursor)
      → low ≤ e.seq
      → (c.pending ≡ []) ⊎ (c.expected_seq < low)
      → (c.pending ≡ []) ⊎ (c.expected_seq < e.seq)
  settled_late low e c le (inl h) = inl h
  settled_late low e c le (inr h) = inr (omega (arith, le, h))

  settled_due :
      (low : ℕ) (e : ScarletStreamEvent) (c : Cursor)
      → low ≤ e.seq
      → e.seq ≡ c.expected_seq
      → (c.pending ≡ []) ⊎ (c.expected_seq < low)
      → c.pending ≡ []
  settled_due low e c le same (inl h) = h
  settled_due low e c le same (inr h) = absurd (omega (arith, le, same, h))

  Step-Running :
      (n : ℕ) (t : Turns) (low : ℕ) (e : ScarletStreamEvent) (c d : Cursor)
      → low ≤ e.seq
      → Step e c d
      → Running n t low c
      → Running n t e.seq d
  Step-Running n t low e c _ le (late h) r = record {
    in_order = r.in_order;
    next = r.next;
    folded = r.folded;
    waiting = r.waiting;
    settled = settled_late low e c le r.settled;
  }
  Step-Running n t low e c _ le (early h) r = record {
    in_order = r.in_order;
    next = r.next;
    folded = r.folded;
    waiting = Above-snoc c.expected_seq c.pending e r.waiting h;
    settled = inr h;
  }
  Step-Running n t low e c _ le (due h) r =
      let empty : c.pending ≡ [] = settled_due low e c le h r.settled in
      record {
        in_order = Consecutive-snoc n c.newly_applied e r.in_order (h ∙ r.next);
        next = omega (arith, r.next, length-append c.newly_applied (e ∷ []));
        folded =
            ap (λ u. apply_turn_event py u e) r.folded
            ∙ sym (fold_turns-append c.newly_applied e t);
        waiting = subst (Above (c.expected_seq + 1)) (sym empty) tt;
        settled = inl empty;
      }

  advance_all-Running :
      (n : ℕ) (t : Turns) (low : ℕ) (l : List ScarletStreamEvent) (c : Cursor)
      → Rising low l
      → Running n t low c
      → (high : ℕ) × Running n t high (advance_all py l c)
  unfolding advance_all
  advance_all-Running n t low [] c up r = (low, r)
  advance_all-Running n t low (e ∷ l) c up r =
      advance_all-Running n t e.seq l (advance py e c) up.1
        (Step-Running n t low e c (advance py e c) up.0 (advance_cases e c) r)

  last_applied-default :
      (m n : ℕ) (e : ScarletStreamEvent) (l : List ScarletStreamEvent)
      → last_applied py (e ∷ l) m ≡ last_applied py (e ∷ l) n
  last_applied-default m n e [] = refl
  last_applied-default m n e (d ∷ l) = last_applied-default m n d l

  last_applied-Consecutive :
      (n : ℕ) (l : List ScarletStreamEvent) → Consecutive n l → last_applied py l n ≡ n + length l
  last_applied-Consecutive n [] c = omega arith
  last_applied-Consecutive n (e ∷ []) c = omega (arith, c.0)
  last_applied-Consecutive n (e ∷ d ∷ l) c =
      omega
        (arith, last_applied-default n (suc n) d l, last_applied-Consecutive (suc n) (d ∷ l) c.1)

  -- the loop's variables before its first round
  abbrev pub start : ReducerState → Cursor
  start s = record {
    expected_seq = s.cursor_seq + 1;
    pending = [];
    newly_applied = [];
    sequence_conflicts = s.sequence_conflicts;
    turns = s.turns;
  }

  ends-Running :
      (s : ReducerState) (l : List ScarletStreamEvent)
      → (high : ℕ) × Running s.cursor_seq s.turns high (advance_all py (sort_by by_seq l) (start s))
  ends-Running s l =
      advance_all-Running s.cursor_seq s.turns 0 (sort_by by_seq l) (start s) (sort_by-Rising l)
        (record {
          in_order = tt;
          next = omega arith;
          folded = refl;
          waiting = tt;
          settled = inl refl;
        })

  -- What a call of the reducer delivers, from the state before it.
  pub record Delivers (s : ReducerState) (r : Reduction) : Type 0 where
    pub applied : List ScarletStreamEvent
    pub in_order : Consecutive s.cursor_seq applied
    pub recorded : r.state.applied_event_ids ≡ s.applied_event_ids ++ ids py applied
    pub folded : r.state.turns ≡ fold_turns applied s.turns
    pub cursor : r.state.cursor_seq ≡ s.cursor_seq + length applied
    pub next : r.next_expected_seq ≡ suc r.state.cursor_seq
    pub waiting : Above r.next_expected_seq r.state.pending_events

  -- Whatever events arrive, in whatever order and with whatever repetitions, the reducer applies a
  -- run of events whose sequence numbers follow the cursor without a gap: their ids are appended to
  -- the applied ones, the turns are those of folding exactly this run, the cursor moves by its
  -- length, the next expected number is the one after the cursor, and every event kept pending has a
  -- larger number.
  pub reduce-Delivers :
      (dumps : Dumps) (events : List ScarletStreamEvent) (s : ReducerState)
      → Delivers s (reduce_stream_events py dumps events s)
  unfolding reduce_stream_events
  reduce-Delivers dumps events s =
      let i : Intake = take_all dumps events (record {
        by_id = load_pending s.pending_events [];
        fingerprints = s.event_fingerprints;
        conflicting = s.conflicting_event_ids;
      }) in
      let (_, run) = ends-Running s i.by_id in
      let applied : List ScarletStreamEvent =
        (advance_all py (sort_by by_seq i.by_id) (start s)).newly_applied in
      record {
        applied = applied;
        in_order = run.in_order;
        recorded = refl;
        folded = run.folded;
        cursor = last_applied-Consecutive s.cursor_seq applied run.in_order;
        next = omega (arith, run.next, last_applied-Consecutive s.cursor_seq applied run.in_order);
        waiting = run.waiting;
      }
