-- ===== src/Chronology/SourceMap/Complete.antt =====
-- A history that was recorded turn by turn is mapped, whatever the turns said.
use llm_api_mind.Base.{
  String, none, some, List, [], ◌∷◌, ◌++◌, map, Bool, true, false, ◌≡◌, refl, sym, ap, ◌∙◌, subst,
  init-append, last-append, drop-append,
}
use mathlib.Core.List.{append-nil, append_assoc, map-append}
use llm_api_mind.Storage.Models.{ChatSession, Turn, Trace, Database}
use llm_api_mind.Storage.Sessions.{get_chat_session, list_turns_for_session}
use llm_api_mind.Chronology.Python.{Python, EqReflexive}
use llm_api_mind.Chronology.Messages.{
  ProviderMessage, provider_messages, messages_eq, messages_eq_refl, message_eq_refl,
  is_prefix-append,
}
use llm_api_mind.Chronology.SourceMap.{
  ok, ◌>>=◌, MappedTurn, MappedHistory, Snapshot, Walk, snapshots, mapped_turn, align, visit, walk,
  following, history_of, map_history, build_chronology_source_map, start, extend,
}
use llm_api_mind.Chronology.SourceMap.Sound.{legacy_messages, legacy_messages-legacy_of}

-- One turn: the user's message, and what the provider history gained behind it.
pub record Exchange : Type 0 where
  pub turn : Turn
  pub trace : Trace
  pub user : ProviderMessage
  pub answer : List ProviderMessage

abbrev pub segment : Exchange → List ProviderMessage
segment x = x.user ∷ x.answer

-- the request of each turn: the history before it and the user's message
abbrev pub requests : List ProviderMessage → List Exchange → List Snapshot
requests h [] = []
requests h (x ∷ xs) =
    record { turn = x.turn; trace = x.trace; messages = h ++ x.user ∷ [] }
    ∷ requests (h ++ segment x) xs

-- the history after all turns
abbrev pub history : List ProviderMessage → List Exchange → List ProviderMessage
history h [] = h
history h (x ∷ xs) = history (h ++ segment x) xs

abbrev pub contents : List MappedTurn → List (List ProviderMessage)
contents = map (λ u. u.provider_messages)

module _ (py : Python) (eq_self : EqReflexive py) (db : Database) where
  abbrev asked : List ProviderMessage → Exchange → Snapshot
  asked h x = record { turn = x.turn; trace = x.trace; messages = h ++ x.user ∷ [] }

  following-requests :
      (h : List ProviderMessage) (xs : List Exchange)
      → following py (history h xs) (requests h xs) ≡ h
  following-requests h [] = refl
  following-requests h (x ∷ xs) = init-append h x.user

  align_again :
      (h : List ProviderMessage) (s : Snapshot) (w : Walk)
      → w.mapped ≡ h
      → align py false h s w ≡ ok w
  unfolding align
  align_again h s w e = rw (e, messages_eq_refl py eq_self h)

  align_first :
      (h : List ProviderMessage) (s : Snapshot)
      → align py true h s (start py) ≡ ok (record { legacy = h; mapped = h; units = [] })
  unfolding align messages_eq
  align_first [] s = refl
  align_first (m ∷ h) s = refl

  visit-asked :
      (first : Bool) (h : List ProviderMessage) (x : Exchange) (w a : Walk)
      → align py first h (asked h x) w ≡ ok a
      → visit py db first (asked h x) (h ++ segment x) w
        ≡ ok (extend py db (asked h x) (segment x) a)
  unfolding visit
  visit-asked first h x w a e =
      rw
        (
          init-append h x.user,
          last-append h x.user,
          drop-append h (segment x),
          is_prefix-append py eq_self h (segment x),
          e,
        )
        (rw (message_eq_refl py eq_self x.user) refl)

  -- What a run of the loop leaves: the whole history, and a segment for each turn.
  record Recorded (h : List ProviderMessage) (xs : List Exchange) (w w' : Walk) : Type 0 where
    all : w'.mapped ≡ history h xs
    units : contents w'.units ≡ contents w.units ++ map segment xs
    legacy : w'.legacy ≡ w.legacy

  contents-extend :
      (h : List ProviderMessage) (x : Exchange) (w : Walk) (l : List (List ProviderMessage))
      → contents (extend py db (asked h x) (segment x) w).units ++ l
        ≡ contents w.units ++ segment x ∷ l
  unfolding mapped_turn
  contents-extend h x w l = rw (map-append, append_assoc)

  walk-Recorded :
      (h : List ProviderMessage) (xs : List Exchange) (w : Walk)
      → w.mapped ≡ h
      → (w' : Walk) × (walk py db (history h xs) false w (requests h xs) ≡ ok w')
        × Recorded h xs w w'
  unfolding walk
  walk-Recorded h [] w e = (w, refl, record { all = e; units = sym (append-nil _); legacy = refl })
  walk-Recorded h (x ∷ xs) w e =
      let w1 : Walk = extend py db (asked h x) (segment x) w in
      let (w', run, r) = walk-Recorded (h ++ segment x) xs w1 (ap (λ l. l ++ segment x) e) in
      (
        w',
        rw (following-requests (h ++ segment x) xs)
            (rw (visit-asked false h x w w (align_again h (asked h x) w e)) run),
        record {
          all = r.all;
          units = r.units ∙ contents-extend h x w (map segment xs);
          legacy = r.legacy;
        },
      )

  walk_first :
      (h : List ProviderMessage) (x : Exchange) (xs : List Exchange)
      → (w : Walk) × (walk py db (history h (x ∷ xs)) true (start py) (requests h (x ∷ xs)) ≡ ok w)
        × (w.mapped ≡ history h (x ∷ xs))
        × (contents w.units ≡ map segment (x ∷ xs))
        × (w.legacy ≡ h)
  unfolding walk
  walk_first h x xs =
      let w0 : Walk = record { legacy = h; mapped = h; units = [] } in
      let w1 : Walk = extend py db (asked h x) (segment x) w0 in
      let (w', run, r) = walk-Recorded (h ++ segment x) xs w1 refl in
      (
        w',
        rw (following-requests (h ++ segment x) xs)
            (rw (visit-asked true h x (start py) w0 (align_first h (asked h x))) run),
        r.all,
        r.units ∙ contents-extend h x w0 (map segment xs),
        r.legacy,
      )

history-cons :
    (h : List ProviderMessage) (x : Exchange) (xs : List Exchange)
    → (c : ProviderMessage) × (l : List ProviderMessage) × (history h (x ∷ xs) ≡ c ∷ l)
history-cons [] x [] = (x.user, x.answer, refl)
history-cons (c ∷ h) x [] = (c, h ++ segment x, refl)
history-cons h x (y ∷ ys) = history-cons (h ++ segment x) y ys

map_history-ok :
    (py : Python) (db : Database) (turns : List Turn) (w : Walk) {canonical : List ProviderMessage}
    {requested : List Snapshot} (c : ProviderMessage) (l : List ProviderMessage)
    → canonical ≡ c ∷ l
    → snapshots db turns ≡ ok requested
    → walk py db canonical true (start py) requested ≡ ok w
    → map_history py db canonical turns ≡ ok (history_of py canonical w)
unfolding map_history
map_history-ok py db turns w {requested = r} c l split snapped run =
    let run' = subst (λ k. walk py db k true (start py) r ≡ ok w) split run in
    rw (split, snapped) (ap (λ v. v >>= λ w. ok (history_of py (c ∷ l) w)) run')

-- Suppose that a session has at least one completed turn, that its canonical history is a legacy
-- prefix `h` followed, for each completed turn in order, by the user's message and what the turn
-- appended, and that the request trace of every turn holds the history before it and its user's
-- message. Then the source map is verified, its legacy prefix is `h`, and each turn is mapped to its
-- own messages. Equality of decoded values is assumed to be reflexive.
pub recorded_history_verified :
    (py : Python) (eq_self : EqReflexive py) (db : Database) (session_id : String)
    (session : ChatSession) (h : List ProviderMessage) (x : Exchange) (xs : List Exchange)
    → get_chat_session db session_id ≡ some session
    → provider_messages (some session.provider_history_json) ≡ some (history h (x ∷ xs))
    → snapshots db (list_turns_for_session db session_id (some "completed") none)
      ≡ ok (requests h (x ∷ xs))
    → (m : MappedHistory) × (build_chronology_source_map py db session_id ≡ ok m)
      × (m.mapping_verified ≡ true)
      × (contents m.turns ≡ map segment (x ∷ xs))
      × (legacy_messages m.legacy_prefix ≡ h)
unfolding build_chronology_source_map
recorded_history_verified py eq_self db session_id session h x xs got parsed snapped =
    let (w, run, all, units, legacy) = walk_first py eq_self db h x xs in
    let (c, l, split) = history-cons h x xs in
    let turns = list_turns_for_session db session_id (some "completed") none in
    (
      history_of py (history h (x ∷ xs)) w,
      rw (got, parsed) (map_history-ok py db turns w c l split snapped run),
      unfold history_of in rw all (messages_eq_refl py eq_self (history h (x ∷ xs))),
      unfold history_of in units,
      unfold history_of in rw (legacy_messages-legacy_of py w.legacy) legacy,
    )
