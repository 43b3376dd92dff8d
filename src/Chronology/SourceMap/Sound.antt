-- ===== src/Chronology/SourceMap/Sound.antt =====
-- What a finished source map says of the canonical history.
use llm_api_mind.Base.{
  String, Option, none, some, List, [], ◌∷◌, ◌++◌, map, Bool, true, false, ◌≡◌, refl, ap, ◌∙◌,
  subst, arith, init, last?, drop, length,
}
use mathlib.Core.List.{append-nil, append_assoc, map-append}
use llm_api_mind.Storage.Models.{ChatSession, Turn, Database}
use llm_api_mind.Storage.Sessions.{list_traces_for_turn, get_chat_session, list_turns_for_session}
use llm_api_mind.Chronology.Python.{Python}
use llm_api_mind.Chronology.Messages.{latest_trace, ProviderMessage, provider_messages, messages_eq}
use llm_api_mind.Chronology.SourceMap.{
  Run, type_error, failed, ok, ◌>>=◌, ◌>>◌, require, MappedTurn, MappedHistory, LegacyPrefix,
  Snapshot, Walk, Failure, segments, snapshot, snapshots, mapped_turn, align, visit, walk,
  following, legacy_of, history_of, empty_history, map_history, build_chronology_source_map, start,
  hashed, extend, found, at_turn, at_session, session_not_found, at_trace,
  llm_request_trace_missing, request_provider_messages_invalid, requested, ends_with_user,
}

pub >>=-eq-ok {ℓ κ} :
    {A : Type ℓ} {B : Type κ} (run : Run A) (next : A → Run B) {end : B}
    → (run >>= next) ≡ ok end
    → (value : A) × (run ≡ ok value) × (next value ≡ ok end)
>>=-eq-ok type_error next e = cc
>>=-eq-ok (failed reason) next e = cc
>>=-eq-ok (ok value) next e = (value, refl, e)

ok_inj {ℓ} : {A : Type ℓ} {a b : A} → ok a ≡ ok b → a ≡ b
ok_inj e = cc

found-eq-ok {ℓ} : {A : Type ℓ} {a : A} (o : Option A) (f : Failure) → found o f ≡ ok a → o ≡ some a
found-eq-ok none f e = cc
found-eq-ok (some a) f e = cc

hashed-eq-ok :
    {l : List ProviderMessage} (o : Option (List ProviderMessage)) → hashed o ≡ ok l → o ≡ some l
hashed-eq-ok none e = cc
hashed-eq-ok (some l) e = cc

-- The mapped messages are the legacy prefix and then the segments of the turns.
abbrev pub IsCovered : Walk → Type 0
IsCovered w = w.mapped ≡ w.legacy ++ segments w.units

abbrev IsFresh : Bool → Walk → Type 0
IsFresh true w = (w.mapped ≡ []) × (w.units ≡ [])
IsFresh false w = Unit

segments-append : (us vs : List MappedTurn) → segments (us ++ vs) ≡ segments us ++ segments vs
segments-append [] vs = refl
segments-append (u ∷ us) vs = simp (segments-append us vs, append_assoc)

-- The two guards and the middle step of a round, inverted.
guarded :
    (b c : Bool) (m : Run Walk) (f g : Failure) (k : Walk → Walk) {w' : Walk}
    → (do require b f; a ← m; require c g; ok (k a)) ≡ ok w'
    → (a : Walk) × (m ≡ ok a) × (k a ≡ w')
guarded true true (ok a) f g k e = (a, refl, ground arith)
guarded true true (failed r) f g k e = cc
guarded true true type_error f g k e = cc
guarded true false (ok a) f g k e = cc
guarded true false (failed r) f g k e = cc
guarded true false type_error f g k e = cc
guarded false c m f g k e = cc

abbrev pub turn_ids : List MappedTurn → List String
turn_ids = map (λ u. u.turn_id)

cover-append :
    (l m : List ProviderMessage) (us : List MappedTurn) (u : MappedTurn)
    → m ≡ l ++ segments us
    → m ++ u.provider_messages ≡ l ++ segments (us ++ u ∷ [])
cover-append l m us u e = rw (e, segments-append us (u ∷ []), append-nil, append_assoc)

ids-append :
    (us vs : List MappedTurn) (u : MappedTurn)
    → vs ≡ us
    → turn_ids (vs ++ u ∷ []) ≡ turn_ids us ++ u.turn_id ∷ []
ids-append us vs u e = rw (e, map-append)

module _ (py : Python) where
  align-IsCovered :
      (first : Bool) (before : List ProviderMessage) (s : Snapshot) (w w' : Walk)
      → align py first before s w ≡ ok w'
      → IsFresh first w
      → IsCovered w
      → IsCovered w' × (w'.units ≡ w.units)
  unfolding align
  align-IsCovered true (m ∷ before) s w w' e (none_mapped, no_units) c =
      ground (arith, append-nil (m ∷ before), ap segments no_units)
  align-IsCovered true [] s w w' e f c = ground arith
  align-IsCovered false before s w w' e f c = ground arith

  -- What a round that goes on has checked.
  visit-eq-ok :
      (db : Database) (first : Bool) (s : Snapshot) (after : List ProviderMessage) (w : Walk)
      {w' : Walk}
      → visit py db first s after w ≡ ok w'
      → (a : Walk) × (align py first (init s.messages) s w ≡ ok a)
        × (extend py db s (drop (length (init s.messages)) after) a ≡ w')
  unfolding visit
  visit-eq-ok db first s after w e = guarded _ _ _ _ _ _ e

  -- One round appends the segment of its turn, which is what follows its request.
  visit-IsCovered :
      (db : Database) (first : Bool) (s : Snapshot) (after : List ProviderMessage) (w w' : Walk)
      → visit py db first s after w ≡ ok w'
      → IsFresh first w
      → IsCovered w
      → IsCovered w' × (turn_ids w'.units ≡ turn_ids w.units ++ s.turn.id ∷ [])
  unfolding mapped_turn
  visit-IsCovered db first s after w w' e f c =
      let (a, aligned, added) = visit-eq-ok db first s after w e in
      let (covered, same) = align-IsCovered first (init s.messages) s w a aligned f c in
      let u : MappedTurn = mapped_turn py db s (drop (length (init s.messages)) after) in
      rw (← added)
        (cover-append a.legacy a.mapped a.units u covered, ids-append w.units a.units u same)

  walk-IsCovered :
      (db : Database) (canonical : List ProviderMessage) (first : Bool) (w w' : Walk)
      (rest : List Snapshot)
      → walk py db canonical first w rest ≡ ok w'
      → IsFresh first w
      → IsCovered w
      → IsCovered w' × (turn_ids w'.units ≡ turn_ids w.units ++ map (λ s. s.turn.id) rest)
  unfolding walk
  walk-IsCovered db canonical first w w' [] e f c = (ground arith, rw append-nil (ground arith))
  walk-IsCovered db canonical first w w' (s ∷ rest) e f c =
      let (a, seen, e') =
        >>=-eq-ok (visit py db first s (following py canonical rest) w)
          (λ v. walk py db canonical false v rest) e in
      let (covered, ids) = visit-IsCovered db first s (following py canonical rest) w a seen f c in
      let (covered', ids') = walk-IsCovered db canonical false a w' rest e' tt covered in
      (
        covered',
        ids'
            ∙ ap (λ l. l ++ map (λ s. s.turn.id) rest) ids
            ∙ append_assoc (turn_ids w.units) (s.turn.id ∷ []) (map (λ s'. s'.turn.id) rest),
      )

snapshot_turn : (db : Database) (t : Turn) {s : Snapshot} → snapshot db t ≡ ok s → s.turn ≡ t
unfolding snapshot
snapshot_turn db t e =
    let (trace, _, e1) =
      >>=-eq-ok
        (found (latest_trace (list_traces_for_turn db t.id) "llm.request")
          (at_turn llm_request_trace_missing t))
        (λ trace. do
          messages ← hashed (provider_messages (requested trace.payload_json))
          require (ends_with_user (last? messages))
              (at_trace request_provider_messages_invalid t trace)
          ok (record { turn = t; trace = trace; messages = messages }))
        e in
    let (messages, _, e2) =
      >>=-eq-ok (hashed (provider_messages (requested trace.payload_json)))
        (λ messages. do
          require (ends_with_user (last? messages))
              (at_trace request_provider_messages_invalid t trace)
          ok (record { turn = t; trace = trace; messages = messages }))
        e1 in
    ground arith

snapshots_turns :
    (db : Database) (turns : List Turn) (l : List Snapshot)
    → snapshots db turns ≡ ok l
    → map (λ s. s.turn.id) l ≡ map (λ t. t.id) turns
unfolding snapshots
snapshots_turns db [] l e = ground arith
snapshots_turns db (t ∷ turns) l e =
    let (s, here, e1) = >>=-eq-ok (snapshot db t) (λ s. do k ← snapshots db turns; ok (s ∷ k)) e in
    let (k, there, e2) = >>=-eq-ok (snapshots db turns) (λ k. ok (s ∷ k)) e1 in
    ground (arith, snapshot_turn db t here, snapshots_turns db turns k there)

abbrev pub legacy_messages : LegacyPrefix → List ProviderMessage
legacy_messages p = elim p.provider_messages [ none ↦ [] | some l ↦ l ]

pub legacy_messages-legacy_of :
    (py : Python) (l : List ProviderMessage) → legacy_messages (legacy_of py l) ≡ l
unfolding legacy_of
legacy_messages-legacy_of py [] = refl
legacy_messages-legacy_of py (m ∷ l) = refl

-- What a verified map of this canonical history says.
pub record Covers (py : Python) (canonical : List ProviderMessage) (turns : List Turn)
    (m : MappedHistory) : Type 0 where
  pub messages :
      messages_eq py (legacy_messages m.legacy_prefix ++ segments m.turns) canonical ≡ true
  pub order : turn_ids m.turns ≡ map (λ t. t.id) turns

history_of-Covers :
    (py : Python) (canonical : List ProviderMessage) (turns : List Turn) (w : Walk)
    → IsCovered w
    → turn_ids w.units ≡ map (λ t. t.id) turns
    → (history_of py canonical w).mapping_verified ≡ true
    → Covers py canonical turns (history_of py canonical w)
unfolding history_of
history_of-Covers py canonical turns w covered ids v = record {
  messages =
      rw (legacy_messages-legacy_of py w.legacy)
        (subst (λ l. messages_eq py l canonical ≡ true) covered v);
  order = ids;
}

map_history-Covers :
    (py : Python) (db : Database) (canonical : List ProviderMessage) (turns : List Turn)
    (m : MappedHistory)
    → map_history py db canonical turns ≡ ok m
    → m.mapping_verified ≡ true
    → Covers py canonical turns m
unfolding map_history empty_history history_of messages_eq
map_history-Covers py db [] [] m e v = record { messages = ground arith; order = ground arith }
map_history-Covers py db [] (t ∷ turns) m e v = cc
map_history-Covers py db (c ∷ canonical) turns m e v =
    let (requests, snapped, e1) =
      >>=-eq-ok (snapshots db turns)
        (λ requests. do
          w ← walk py db (c ∷ canonical) true (start py) requests
          ok (history_of py (c ∷ canonical) w))
        e in
    let (w, walked, e2) =
      >>=-eq-ok (walk py db (c ∷ canonical) true (start py) requests)
        (λ w. ok (history_of py (c ∷ canonical) w)) e1 in
    let (covered, ids) =
      walk-IsCovered py db (c ∷ canonical) true (start py) w requests walked (refl, refl) refl in
    subst (λ k. k.mapping_verified ≡ true → Covers py (c ∷ canonical) turns k) (ok_inj e2)
      (history_of-Covers py (c ∷ canonical) turns w covered
        (ids ∙ snapshots_turns db turns requests snapped))
      v

-- If the call returns a map and the map is verified, then its legacy prefix followed by the
-- segments of its turns equals, by Python's `==`, the session's canonical provider history, and its
-- turns are the completed turns of the session in their order.
pub verified-Covers :
    (py : Python) (db : Database) (session_id : String) (m : MappedHistory)
    → build_chronology_source_map py db session_id ≡ ok m
    → m.mapping_verified ≡ true
    → (session : ChatSession) × (canonical : List ProviderMessage) × (get_chat_session db session_id
        ≡ some session)
      × (provider_messages (some session.provider_history_json) ≡ some canonical)
      × Covers py canonical (list_turns_for_session db session_id (some "completed") none) m
unfolding build_chronology_source_map
verified-Covers py db session_id m e v =
    let turns = list_turns_for_session db session_id (some "completed") none in
    let (session, got, e1) =
      >>=-eq-ok (found (get_chat_session db session_id) (at_session session_not_found))
        (λ session. do
          canonical ← hashed (provider_messages (some session.provider_history_json))
          map_history py db canonical turns)
        e in
    let (canonical, parsed, e2) =
      >>=-eq-ok (hashed (provider_messages (some session.provider_history_json)))
        (λ canonical. map_history py db canonical turns) e1 in
    (
      session,
      canonical,
      found-eq-ok (get_chat_session db session_id) (at_session session_not_found) got,
      hashed-eq-ok (provider_messages (some session.provider_history_json)) parsed,
      map_history-Covers py db canonical turns m e2 v,
    )
