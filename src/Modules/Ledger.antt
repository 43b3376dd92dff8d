-- ===== src/Modules/Ledger.antt =====
-- `blocked` and `diagnostics` of backend/app/agentic_modules/validation.py, and `_block`. The texts
-- of the messages are left out.
use llm_api_mind.Base.{
  String, Option, some, List, [], ◌∷◌, ◌++◌, Bool, true, false, ◌==◌, ◌||◌, ◌≡◌, refl, arith,
  eq_iff, contains, if◌then◌else◌,
}

pub data Severity : Type 0 where
  error warning : Severity

pub record ModuleDiagnostic : Type 0 where
  pub severity : Severity
  pub code : String
  pub module_id : Option String
  pub dependency_id : Option String

-- A dict from module ids to the codes of their reasons, in the order of insertion.
abbrev pub Blocked : Type 0
Blocked = List (String × List String)

pub record Ledger : Type 0 where
  pub blocked : Blocked
  pub diagnostics : List ModuleDiagnostic

-- `module_id in blocked`
unfoldable pub is_blocked : Blocked → String → Bool
is_blocked [] i = false
is_blocked ((j, _) ∷ b) i = i == j || is_blocked b i

-- `blocked[module_id]`
unfoldable pub reasons : Blocked → String → List String
reasons [] i = []
reasons ((j, codes) ∷ b) i = if i == j then codes else reasons b i

-- `blocked.setdefault(module_id, []).append(code)`
unfoldable pub add_reason : Blocked → String → String → Blocked
add_reason [] i code = (i, code ∷ []) ∷ []
add_reason ((j, codes) ∷ b) i code =
    if i == j then (j, codes ++ code ∷ []) ∷ b else (j, codes) ∷ add_reason b i code

abbrev pub report : Ledger → ModuleDiagnostic → Ledger
report l d = record l { diagnostics = l.diagnostics ++ d ∷ [] }

-- `_block`: a reason is added, and reported, once
unfoldable pub block : Ledger → (module_id code : String) → (dependency_id : Option String) → Ledger
unfolding add_reason reasons
block l i code dep = if contains (reasons l.blocked i) code then l else record {
  blocked = add_reason l.blocked i code;
  diagnostics =
      l.diagnostics
      ++ record { severity = error; code = code; module_id = some i; dependency_id = dep } ∷ [];
}

pub is_blocked-add_reason :
    (b : Blocked) (i j code : String)
    → is_blocked (add_reason b i code) j ≡ (j == i || is_blocked b j)
unfolding is_blocked add_reason
is_blocked-add_reason [] i j code = refl
is_blocked-add_reason ((k, codes) ∷ b) i j code =
    ground (arith, is_blocked-add_reason b i j code, eq_iff i k, eq_iff j k, eq_iff j i)

reasons_blocked :
    (b : Blocked) (i code : String) → contains (reasons b i) code ≡ true → is_blocked b i ≡ true
unfolding is_blocked reasons
reasons_blocked [] i code h = h
reasons_blocked ((j, codes) ∷ b) i code h = ground (arith, reasons_blocked b i code)

-- Whatever the ledger held, `_block` adds exactly its module to the blocked ones.
pub is_blocked-block :
    (l : Ledger) (i j code : String) (dep : Option String)
    → is_blocked (block l i code dep).blocked j ≡ (j == i || is_blocked l.blocked j)
unfolding block
is_blocked-block l i j code dep =
    ground (
      arith,
      is_blocked-add_reason l.blocked i j code,
      reasons_blocked l.blocked i code,
      eq_iff j i,
    )
