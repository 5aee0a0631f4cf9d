-- ===== src/Tools.antt =====
-- internal/engine/tool_processor.go: the results of the tool calls of a response. Random numbers are
-- inputs: a call comes with the id that was generated for it and with the number that was drawn
-- for its error injection, `none` if drawing failed. So a call in a goroutine does not depend on
-- the others. `A` is Go's `any`; the equality of values and the check of parameters against a schema
-- `P` (internal/engine/tool_validator.go) are parameters.
pub mod Paths
mod Examples
use Prim.Native.String.{◌++◌ as followed_by}
use mock_agents.Prelude.{
  ℕ, Bool, true, false, not, ◌&&◌, ◌||◌, String, Option, none, some, List, [], ◌∷◌, if◌then◌else◌,
  ltb, leb, ◌==◌, length, ◌⊎◌, inl, inr, Assoc, Entry, lookup, insert,
}
use mock_agents.Float.{Float64}

pub record ToolError : Type 0 where
  pub code : String
  pub message : String

pub data ToolFailure : Type 0 where
  tool_not_found : String → ToolFailure
  parameter_validation : ToolFailure

-- `response` is `none` for a nil response.
pub record ToolResponseRule (A : Type 0) : Type 0 where
  pub match_args : Assoc A
  pub response : Option A
  pub error : Option ToolError
  pub is_default : Bool

pub record ToolDefinition (A P F : Type 0) : Type 0 where
  pub name : String
  pub parameters : P
  pub responses : List (ToolResponseRule A)
  pub validate : Bool
  pub error_rate : F

-- `drawn` is of the range of rand.Int.
pub record ToolCallSpec (A : Type 0) : Type 0 where
  pub name : String
  pub arguments : Assoc A
  pub id : String
  pub drawn : Option ℕ

pub record ToolCallResult (A : Type 0) : Type 0 where
  pub id : String
  pub tool_name : String
  pub response : Option A
  pub error : Option ToolError
  pub is_error : Bool

-- `check` gives the violations, `is_empty` is the test that a schema has no entry, and `status_ok`
-- the response of a tool without a rule for the call; `quoted` and `rate_text` are %q and the text
-- of an injected error.
pub record Values (A P F : Type 0) : Type 0 where
  pub values_equal : A → A → Bool
  pub is_empty : P → Bool
  pub check : P → Assoc A → List String
  pub status_ok : A
  pub rate_text : F → String
  pub quoted : String → String

-- The lines of several violations.
unfoldable pub violation_lines : List String → String
violation_lines [] = ""
violation_lines (e ∷ es) = followed_by "\n  - " (followed_by e (violation_lines es))

unfoldable pub format_validation_errors : List String → String
format_validation_errors [] = "multiple validation errors:"
format_validation_errors (e ∷ []) = e
format_validation_errors (e ∷ d ∷ es) =
    followed_by "multiple validation errors:" (violation_lines (e ∷ d ∷ es))

-- An error but one of parameter validation.
abbrev pub fatal : Option ToolFailure → Option ToolFailure
fatal none = none
fatal (some (tool_not_found name)) = some (tool_not_found name)
fatal (some parameter_validation) = none

abbrev pub first_error : Option ToolFailure → Option ToolFailure → Option ToolFailure
first_error (some e) err = some e
first_error none err = fatal err

unfoldable pub first_fatal : List (Option ToolFailure) → Option ToolFailure
first_fatal [] = none
first_fatal (err ∷ errs) = elim (fatal err) [ none ↦ first_fatal errs | some e ↦ some e ]

module _ (f : Float64) {A P : Type 0} (v : Values A P f.F) where
  open f use {F, f_zero, f_one, lt, le, div, of_int}

  unfoldable pub should_inject_error : F → Option ℕ → Bool
  should_inject_error rate drawn =
      if le rate f_zero
      then false
      else if le f_one rate
      then true
      else (elim drawn [ none ↦ false | some n ↦ lt (div (of_int n) (of_int 10000)) rate ])

  unfoldable pub index_tools :
      List (ToolDefinition A P F) → Assoc (ToolDefinition A P F) → Assoc (ToolDefinition A P F)
  index_tools [] index = index
  index_tools (tool ∷ tools) index = index_tools tools (insert tool.name tool index)

  abbrev pub arg_fits : A → Option A → Bool
  arg_fits expected none = false
  arg_fits expected (some actual) = v.values_equal expected actual

  unfoldable pub all_match : Assoc A → Assoc A → Bool
  all_match [] args = true
  all_match (e ∷ rest) args = arg_fits e.val (lookup e.key args) && all_match rest args

  unfoldable pub match_arguments : Assoc A → Assoc A → Bool
  match_arguments wanted args = if length wanted == 0 then false else all_match wanted args

  abbrev pub rule_result : ToolResponseRule A → Option A ⊎ ToolError
  rule_result rule = elim rule.error [ none ↦ inl rule.response | some err ↦ inr err ]

  abbrev pub default_or_nothing : Option (ToolResponseRule A) → Option A ⊎ ToolError
  default_or_nothing none = inl none
  default_or_nothing (some rule) = rule_result rule

  -- The last default rule is the one.
  unfoldable pub resolve_rules :
      List (ToolResponseRule A) → Assoc A → Option (ToolResponseRule A) → Option A ⊎ ToolError
  resolve_rules [] args default_rule = default_or_nothing default_rule
  resolve_rules (rule ∷ rules) args default_rule =
      if rule.is_default
      then resolve_rules rules args (some rule)
      else if match_arguments rule.match_args args
      then rule_result rule
      else resolve_rules rules args default_rule

  unfoldable pub resolve_tool_response : List (ToolResponseRule A) → Assoc A → Option A ⊎ ToolError
  resolve_tool_response rules args = resolve_rules rules args none

  abbrev pub failed : ToolCallSpec A → String → String → ToolCallResult A
  failed call code message = record {
    id = call.id;
    tool_name = call.name;
    response = none;
    error = some (record { code = code; message = message });
    is_error = true;
  }

  abbrev pub resolved : ToolCallSpec A → Option A ⊎ ToolError → ToolCallResult A
  resolved call (inr err) = record {
    id = call.id;
    tool_name = call.name;
    response = none;
    error = some err;
    is_error = true;
  }
  resolved call (inl none) = record {
    id = call.id;
    tool_name = call.name;
    response = some v.status_ok;
    error = none;
    is_error = false;
  }
  resolved call (inl (some answer)) = record {
    id = call.id;
    tool_name = call.name;
    response = some answer;
    error = none;
    is_error = false;
  }

  -- What follows the check of the parameters.
  abbrev pub answer_call : ToolCallSpec A → ToolDefinition A P F → ToolCallResult A
  answer_call call tool =
      if lt f_zero tool.error_rate && should_inject_error tool.error_rate call.drawn
      then failed call "INJECTED_ERROR" (v.rate_text tool.error_rate)
      else resolved call (resolve_tool_response tool.responses call.arguments)

  -- The violations, if the tool wants them checked.
  abbrev pub violations : ToolCallSpec A → ToolDefinition A P F → List String
  violations call tool =
      if tool.validate && not (v.is_empty tool.parameters)
      then v.check tool.parameters call.arguments
      else []

  abbrev pub checked_call :
      ToolCallSpec A → ToolDefinition A P F → List String → ToolCallResult A × Option ToolFailure
  checked_call call tool [] = (answer_call call tool, none)
  checked_call call tool (e ∷ es) = (
    failed call "INVALID_PARAMETERS" (format_validation_errors (e ∷ es)),
    some parameter_validation,
  )

  abbrev pub call_tool :
      ToolCallSpec A → Option (ToolDefinition A P F) → ToolCallResult A × Option ToolFailure
  call_tool call none = (
    failed call "TOOL_NOT_FOUND"
        (followed_by "tool " (followed_by (v.quoted call.name) " is not defined in the agent")),
    some (tool_not_found call.name),
  )
  call_tool call (some tool) = checked_call call tool (violations call tool)

  unfoldable pub process_one :
      ToolCallSpec A → Assoc (ToolDefinition A P F) → ToolCallResult A × Option ToolFailure
  process_one call index = call_tool call (lookup call.name index)

  -- The path for one or two calls.
  unfoldable pub process_inline :
      List (ToolCallSpec A)
      → Assoc (ToolDefinition A P F)
      → Option ToolFailure
      → List (ToolCallResult A) × Option ToolFailure
  process_inline [] index first = ([], first)
  process_inline (call ∷ calls) index first =
      let one = process_one call index in
      let rest = process_inline calls index (first_error first one.1) in (one.0 ∷ rest.0, rest.1)

  unfoldable pub process_each :
      List (ToolCallSpec A)
      → Assoc (ToolDefinition A P F)
      → List (ToolCallResult A) × List (Option ToolFailure)
  process_each [] index = ([], [])
  process_each (call ∷ calls) index =
      let one = process_one call index in
      let rest = process_each calls index in (one.0 ∷ rest.0, one.1 ∷ rest.1)

  unfoldable pub process_tool_calls :
      List (ToolCallSpec A)
      → List (ToolDefinition A P F)
      → List (ToolCallResult A) × Option ToolFailure
  process_tool_calls calls tools =
      let index = index_tools tools [] in
      let each = process_each calls index in
      if length calls == 0
      then ([], none)
      else if leb (length calls) 2
      then process_inline calls index none
      else (each.0, first_fatal each.1)
