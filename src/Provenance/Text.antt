-- ===== src/Provenance/Text.antt =====
-- What the module takes from Python's `str`, `hashlib` and `int`.
use llm_api_mind.Base.{ℕ, String, List, Bool}

pub record Text : Type 0 where
  -- `content.casefold().split()`
  pub casefold_words : String → List String
  -- `" ".join(words)`
  pub join_spaces : List String → String
  -- `"\n".join(lines)`
  pub join_lines : List String → String
  -- `sha256(text.encode("utf-8")).hexdigest()`
  pub sha256 : String → String
  -- `not text.strip()`
  pub is_blank : String → Bool
  -- `str(n)`
  pub decimal : ℕ → String
