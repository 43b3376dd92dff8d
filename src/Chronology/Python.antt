-- ===== src/Chronology/Python.antt =====
-- What the module takes from the interpreter and its standard library.
use llm_api_mind.Base.{ℕ, String, Bool, true, ◌≡◌}
use llm_api_mind.Base.Json.{Json}

pub record Python : Type 0 where
  -- `==` on decoded JSON
  pub json_eq : Json → Json → Bool
  -- `json.dumps(value, ensure_ascii=False, separators=(",", ":"))`
  pub dumps : Json → String
  -- `sha256(text.encode("utf-8")).hexdigest()`
  pub sha256 : String → String
  -- `ceil(chars / chars_per_token)` for positive `chars`, in floating point
  pub ceil_tokens : ℕ → ℕ
  -- `str(value)`
  pub text_of : Json → String
  -- whether the number of this JSON text is not zero
  pub is_nonzero : String → Bool

-- A decoded JSON value equals itself: `json.loads` gives no NaN for the text that SQLite keeps.
abbrev pub EqReflexive : Python → Type 0
EqReflexive py = (v : Json) → py.json_eq v v ≡ true
