-- ===== src/Storage/Shared.antt =====
-- What the repositories of the organs share: the match of a text search, the touch of the session
-- that a row comes from, the assignment of a field that may be absent, and drawn ids.
use llm_api_mind.Base.{ℕ, String, Option, none, some, Bool, true, false, ◌==◌, if◌then◌else◌}
use llm_api_mind.Storage.Models.{Database}
use llm_api_mind.Storage.Sessions.{touch_session}

-- an id that is drawn and the time of the row that carries it
pub record Stamp : Type 0 where
  pub id : String
  pub at : ℕ

-- `str.strip`, and the match of `ILIKE` with a pattern that starts and ends in `%`
pub record TextSearch : Type 0 where
  pub strip : String → String
  pub has : (column needle : String) → Bool

-- a column that may be NULL, which matches nothing
abbrev pub has_option : TextSearch → Option String → String → Bool
has_option t none needle = false
has_option t (some c) needle = t.has c needle

-- the stripped text to search for, where the query is not empty
abbrev pub needle_of : TextSearch → Option String → Option String
needle_of t none = none
needle_of t (some q) = if q == "" then none else some (t.strip q)

abbrev pub sought : Option String → (String → Bool) → Bool
sought none p = true
sought (some needle) p = p needle

-- `if source_session_id is not None: _touch_session(...)`
abbrev pub touch_source : Option String → ℕ → Database → Database
touch_source none at db = db
touch_source (some s) at db = touch_session db s at

-- `if value is not None: row.field = value`
abbrev pub assigned {ℓ} : {A : Type ℓ} → Option A → A → A
assigned none old = old
assigned (some v) old = v

abbrev pub assigned_option {ℓ} : {A : Type ℓ} → Option A → Option A → Option A
assigned_option none old = old
assigned_option (some v) old = some v
