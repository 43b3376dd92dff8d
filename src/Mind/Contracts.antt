-- ===== src/Mind/Contracts.antt =====
-- What the organs share: the context and the result of backend/app/mind/contracts.py, and Python's
-- `or` on texts.
use llm_api_mind.Base.{String, Option, none, some, Bool, true, false, ◌==◌, if◌then◌else◌}
use llm_api_mind.Base.Json.{Fields}

-- `user_profile_id` is the field of the settings that the organs read.
pub record MindApiContext : Type 0 where
  pub session_id : Option String
  pub turn_id : Option String
  pub user_profile_id : Option String

-- The hints, the suggested actions and the confidence are constants of each branch.
pub record MemoryOperationResult : Type 0 where
  pub ok : Bool
  pub result : Fields
  pub error_code : Option String
  pub error_message : Option String

-- `a or b`, where an empty text counts as absent
abbrev pub text_or : Option String → String → String
text_or none d = d
text_or (some t) d = if t == "" then d else t

abbrev pub option_or : Option String → Option String → Option String
option_or none b = b
option_or (some t) b = if t == "" then b else some t

abbrev pub given_text : Option String → Bool
given_text none = false
given_text (some t) = if t == "" then false else true
