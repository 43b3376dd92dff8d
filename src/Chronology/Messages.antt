-- ===== src/Chronology/Messages.antt =====
-- Provider messages: `_provider_messages`, `_latest_trace`, `_tool_call_ids`, `_is_prefix`,
-- `_estimate_tokens`, `_digest` and `_json` of backend/app/runtime/history_compaction.py.
use llm_api_mind.Base.{
  ℕ, String, Option, none, some, List, [], ◌∷◌, Bool, true, false, ◌&&◌, ◌==◌, ◌≡◌, refl, contains,
  length, take, filter, last?, leb, ltb, arith, take-append, length-append, eq_refl, if◌then◌else◌,
  ◌>>=◌, ◌++◌,
}
use llm_api_mind.Base.Json.{Json, null, bool, num, str, arr, obj, Items, nil, cons, end, field, get}
use llm_api_mind.Chronology.Python.{Python, EqReflexive}
use llm_api_mind.Storage.Models.{Trace}

-- `{"role": role, "content": content}`
pub record ProviderMessage : Type 0 where
  pub role : String
  pub content : Items

-- `role not in {"user", "assistant"}`; a list or a dict is not hashable, so that the test raises
-- `TypeError`, which is `none` here.
unfoldable pub known_role : Option Json → Option (Option String)
known_role (some (str r)) = some (if contains ("user" ∷ "assistant" ∷ []) r then some r else none)
known_role (some (arr xs)) = none
known_role (some (obj fs)) = none
known_role _ = some none

abbrev content_of : Option Json → Option Items
content_of (some (arr xs)) = some xs
content_of _ = none

abbrev checked : Option String → Option Items → Option ProviderMessage
checked (some r) (some c) = some (record { role = r; content = c })
checked _ _ = none

-- one item of the loop: raised, rejected or accepted
unfoldable pub provider_message : Json → Option (Option ProviderMessage)
unfolding known_role
provider_message (obj fs) = do
  role ← known_role (get fs "role")
  some (checked role (content_of (get fs "content")))
provider_message _ = some none

-- The loop: the first item that does not fit empties the result. What stands before it is in `acc`.
unfoldable pub provider_items : List ProviderMessage → Items → Option (List ProviderMessage)
unfolding provider_message
provider_items acc nil = some acc
provider_items acc (cons x xs) =
    let rest = λ (m : ProviderMessage). provider_items (acc ++ m ∷ []) xs in
    elim (provider_message x) [ none ↦ none | some r ↦ elim r [ none ↦ some [] | some m ↦ rest m ] ]

-- `_provider_messages`
unfoldable pub provider_messages : Option Json → Option (List ProviderMessage)
unfolding provider_items
provider_messages (some (arr xs)) = provider_items [] xs
provider_messages _ = some []

abbrev pub to_json : ProviderMessage → Json
to_json m = obj (field "role" (str m.role) (field "content" (arr m.content) end))

abbrev pub to_items : List ProviderMessage → Items
to_items [] = nil
to_items (m ∷ l) = cons (to_json m) (to_items l)

-- `_latest_trace`
unfoldable pub latest_trace : List Trace → String → Option Trace
latest_trace traces kind = last? (filter (λ t. t.kind == kind) traces)

module _ (py : Python) where
  open py use {json_eq, dumps, sha256, ceil_tokens, text_of, is_nonzero}

  abbrev pub truthy : Json → Bool
  truthy null = false
  truthy (bool b) = b
  truthy (num n) = is_nonzero n
  truthy (str s) = if s == "" then false else true
  truthy (arr nil) = false
  truthy (arr (cons x xs)) = true
  truthy (obj end) = false
  truthy (obj (field k v fs)) = true

  abbrev call_id : Option Json → List String
  call_id none = []
  call_id (some v) = if truthy v then text_of v ∷ [] else []

  abbrev call_ids : Items → List String
  call_ids nil = []
  call_ids (cons (obj fs) xs) = call_id (get fs "tool_call_id") ++ call_ids xs
  call_ids (cons _ xs) = call_ids xs

  abbrev calls_of : Option Json → List String
  calls_of (some (arr xs)) = call_ids xs
  calls_of _ = []

  -- `_tool_call_ids`
  unfoldable pub tool_call_ids : Option Trace → List String
  tool_call_ids none = []
  tool_call_ids (some t) = calls_of (get t.payload_json "tool_calls")

  -- `==` on lists, element by element
  unfoldable pub items_eq : Items → Items → Bool
  items_eq nil nil = true
  items_eq (cons x xs) (cons y ys) = json_eq x y && items_eq xs ys
  items_eq _ _ = false

  unfoldable pub message_eq : ProviderMessage → ProviderMessage → Bool
  unfolding items_eq
  message_eq m n = m.role == n.role && items_eq m.content n.content

  unfoldable pub messages_eq : List ProviderMessage → List ProviderMessage → Bool
  unfolding message_eq
  messages_eq [] [] = true
  messages_eq (m ∷ l) (n ∷ k) = message_eq m n && messages_eq l k
  messages_eq _ _ = false

  -- `_is_prefix`
  unfoldable pub is_prefix : List ProviderMessage → List ProviderMessage → Bool
  unfolding messages_eq
  is_prefix prefix value =
      leb (length prefix) (length value) && messages_eq (take (length prefix) value) prefix

  -- `_estimate_tokens`
  unfoldable pub estimate_tokens : ℕ → ℕ
  estimate_tokens chars = if ltb 0 chars then ceil_tokens chars else 0

  -- `_json`
  unfoldable pub json : List ProviderMessage → String
  json messages = dumps (arr (to_items messages))

  -- `_digest`
  unfoldable pub digest : List ProviderMessage → String
  unfolding json
  digest messages = sha256 (json messages)

  module _ (eq_self : EqReflexive py) where
    items_eq_refl : (xs : Items) → items_eq xs xs ≡ true
    unfolding items_eq
    items_eq_refl nil = refl
    items_eq_refl (cons x xs) = ground (arith, eq_self x, items_eq_refl xs)

    pub message_eq_refl : (m : ProviderMessage) → message_eq m m ≡ true
    unfolding message_eq
    message_eq_refl m = ground (arith, eq_refl m.role, items_eq_refl m.content)

    pub messages_eq_refl : (l : List ProviderMessage) → messages_eq l l ≡ true
    unfolding messages_eq
    messages_eq_refl [] = refl
    messages_eq_refl (m ∷ l) = ground (arith, message_eq_refl m, messages_eq_refl l)

    -- A list is a prefix of itself with more behind it.
    pub is_prefix-append : (l k : List ProviderMessage) → is_prefix l (l ++ k) ≡ true
    unfolding is_prefix
    is_prefix-append l k =
        rw (take-append l k) (ground (arith, messages_eq_refl l, length-append l k))
