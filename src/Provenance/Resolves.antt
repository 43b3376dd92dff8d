-- ===== src/Provenance/Resolves.antt =====
-- What `_classify_provenance` calls complete and valid.
use llm_api_mind.Base.{
  String, Option, none, some, List, [], ◌∷◌, Bool, true, false, ◌≡◌, refl, sym, ap, ◌∙◌, subst,
  arith, ◌==◌, eq_iff, eq_refl, ◌↔◌, if◌then◌else◌,
}
use llm_api_mind.Storage.Models.{ChatSession, Turn, Message, MemoryRecord, Database, is_text}
use llm_api_mind.Storage.Sessions.{get_chat_session, get_turn, get_message}
use llm_api_mind.Provenance.Text.{Text}
use llm_api_mind.Provenance.Classify.{
  Provenance, source_complete_valid, EvidenceFlags, classify_hook, classify_message,
  classify_inside, classify_ids, classify_provenance, turn_in, user_messages,
}
use llm_api_mind.Provenance.Audit.{source_session}

-- The three hooks name a session, a turn of it, and a user's message in that turn.
pub record Resolves (db : Database) (session_hook turn_hook message_hook : Option String)
    : Type 0 where
  pub session_id : String
  pub turn_id : String
  pub message_id : String
  pub session : ChatSession
  pub turn : Turn
  pub message : Message
  pub hooks :
      (session_hook ≡ some session_id)
      × (turn_hook ≡ some turn_id)
      × (message_hook ≡ some message_id)
  pub session_found : get_chat_session db session_id ≡ some session
  pub turn_found : get_turn db turn_id ≡ some turn
  pub turn_inside : turn.session_id ≡ session_id
  pub message_found : get_message db message_id ≡ some message
  pub message_inside : (message.session_id ≡ session_id) × (message.turn_id ≡ some turn_id)
  pub by_user : message.role ≡ "user"

is_text-eq : (o : Option String) (t : String) → is_text o t ≡ true → o ≡ some t
is_text-eq none t h = cc
is_text-eq (some s) t h = ap some ((eq_iff s t).0 h)

text_inj : {s t : String} → some s ≡ some t → s ≡ t
text_inj e = cc

module _ (text : Text) (db : Database) where
  message_step :
      (o : Option Message) (s t : String) (flags : EvidenceFlags)
      → (classify_message text o s t flags).classification ≡ source_complete_valid
      → (m : Message) × (o ≡ some m) × (m.session_id ≡ s) × (m.turn_id ≡ some t) × (m.role ≡ "user")
  unfolding classify_message
  message_step none s t flags h = absurd (ground (arith, h))
  message_step (some m) s t flags h =
      let (a, b, c) : (m.session_id == s ≡ true)
          × (is_text m.turn_id t ≡ true)
          × (m.role == "user" ≡ true) =
        ground (arith, h) in
      (m, refl, (eq_iff m.session_id s).0 a, is_text-eq m.turn_id t b, (eq_iff m.role "user").0 c)

  turn_step :
      (o : Option Turn) (s : String)
      → turn_in o s ≡ true
      → (t : Turn) × (o ≡ some t) × (t.session_id ≡ s)
  turn_step none s h = cc
  turn_step (some t) s h = (t, refl, (eq_iff t.session_id s).0 h)

  -- the branch that a test took, where the other one ends differently
  branch :
      (b : Bool) (p q : Provenance)
      → (q.classification ≡ source_complete_valid → ⊥)
      → (if b then p else q).classification ≡ source_complete_valid
      → (b ≡ true) × (p.classification ≡ source_complete_valid)
  branch true p q n h = (refl, h)
  branch false p q n h = absurd (n h)

  hook_step :
      (l : List Message) (flags : EvidenceFlags)
      → (classify_hook text l flags).classification ≡ source_complete_valid
      → ⊥
  unfolding classify_hook
  hook_step [] flags h = ground (arith, h)
  hook_step (m ∷ []) flags h = ground (arith, h)
  hook_step (m ∷ n ∷ l) flags h = ground (arith, h)

  inside_step :
      (s t : String) (mid : Option String) (flags : EvidenceFlags)
      → (classify_inside text db s t mid flags).classification ≡ source_complete_valid
      → (x : String) × (m : Message) × (mid ≡ some x)
        × (get_message db x ≡ some m)
        × (m.session_id ≡ s)
        × (m.turn_id ≡ some t)
        × (m.role ≡ "user")
  inside_step s t none flags h = absurd (hook_step (user_messages db t s) flags h)
  inside_step s t (some x) flags h =
      let (m, e, a, b, c) = message_step (get_message db x) s t flags h in (x, m, refl, e, a, b, c)

  session_step :
      (session : Option ChatSession) (s t m : Option String) (flags : EvidenceFlags)
      → source_session db s ≡ session
      → (classify_ids text db session s t m flags).classification ≡ source_complete_valid
      → Resolves db s t m
  session_step session none t m flags e h = absurd (ground (arith, h))
  session_step none (some s) t m flags e h = absurd (ground (arith, h))
  session_step (some c) (some s) none m flags e h = absurd (ground (arith, h))
  session_step (some c) (some s) (some t) m flags e h =
      let (inside, rest) = branch (turn_in (get_turn db t) s) _ _ (λ k. ground (arith, k)) h in
      let (turn, found, own) = turn_step (get_turn db t) s inside in
      let (x, message, hook, got, a, b, u) = inside_step s t m _ rest in
      record {
        session_id = s;
        turn_id = t;
        message_id = x;
        session = c;
        turn = turn;
        message = message;
        hooks = (refl, refl, hook);
        session_found = e;
        turn_found = found;
        turn_inside = own;
        message_found = got;
        message_inside = (a, b);
        by_user = u;
      }

  message_valid :
      (m : Message) (s t : String) (flags : EvidenceFlags)
      → m.session_id ≡ s
      → m.turn_id ≡ some t
      → m.role ≡ "user"
      → (classify_message text (some m) s t flags).classification ≡ source_complete_valid
  unfolding classify_message
  message_valid m s t flags a b c =
      let own : m.session_id == s ≡ true = (eq_iff m.session_id s).1 a in
      let inside : is_text m.turn_id t ≡ true =
        subst (λ o. is_text o t ≡ true) (sym b) (eq_refl t) in
      let user : m.role == "user" ≡ true = (eq_iff m.role "user").1 c in
      ground (arith, own, inside, user)

  found_valid :
      (s t x : String) (session : ChatSession) (turn : Turn) (m : Message) (flags : EvidenceFlags)
      → get_chat_session db s ≡ some session
      → get_turn db t ≡ some turn
      → turn.session_id ≡ s
      → get_message db x ≡ some m
      → m.session_id ≡ s
      → m.turn_id ≡ some t
      → m.role ≡ "user"
      → (classify_ids text db
          (get_chat_session db s)
          (some s)
          (some t)
          (some x)
          flags).classification
        ≡ source_complete_valid
  found_valid s t x session turn m flags es et own em a b c =
      let inside : turn.session_id == s ≡ true = (eq_iff turn.session_id s).1 own in
      rw (es, et, inside, em) (message_valid m s t _ a b c)

  resolved_valid :
      (s t m : Option String) (flags : EvidenceFlags)
      → Resolves db s t m
      → (classify_ids text db (source_session db s) s t m flags).classification
        ≡ source_complete_valid
  resolved_valid none t m flags r = absurd (ground (arith, r.hooks.0))
  resolved_valid (some s) none m flags r = absurd (ground (arith, r.hooks.1))
  resolved_valid (some s) (some t) none flags r = absurd (ground (arith, r.hooks.2))
  resolved_valid (some s) (some t) (some x) flags r =
      let es : r.session_id ≡ s = sym (text_inj r.hooks.0) in
      let et : r.turn_id ≡ t = sym (text_inj r.hooks.1) in
      let ex : r.message_id ≡ x = sym (text_inj r.hooks.2) in
      found_valid s t x r.session r.turn r.message flags
        (subst (λ a. get_chat_session db a ≡ some r.session) es r.session_found)
        (subst (λ a. get_turn db a ≡ some r.turn) et r.turn_found) (r.turn_inside ∙ es)
        (subst (λ a. get_message db a ≡ some r.message) ex r.message_found)
        (r.message_inside.0 ∙ es) (r.message_inside.1 ∙ ap some et) r.by_user

  -- A memory is classified as complete and valid exactly if its stored session, turn and message all
  -- resolve, the turn lies in the session, and the message is a user's message in that turn and
  -- session.
  pub valid-Resolves :
      (m : MemoryRecord)
      → (classify_provenance text db m (source_session db m.source_session_id)).classification
          ≡ source_complete_valid
        ↔ Resolves db m.source_session_id m.source_turn_id m.source_message_id
  unfolding classify_provenance
  valid-Resolves m = (
    session_step (source_session db m.source_session_id) m.source_session_id m.source_turn_id
        m.source_message_id _ refl,
    resolved_valid m.source_session_id m.source_turn_id m.source_message_id _,
  )
