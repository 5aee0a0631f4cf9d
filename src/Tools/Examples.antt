-- ===== src/Tools/Examples.antt =====
-- A lookup tool with a rule and a default, called with and without a match, and a call of a tool
-- that is not there.
use mock_agents.Prelude.{ℕ, true, false, String, none, some, List, [], ◌∷◌, map, ◌≡◌, length, ◌==◌}
use mock_agents.Samples.{whole}
use mock_agents.Tools.{
  ToolDefinition, ToolCallSpec, ToolCallResult, Values, index_tools, process_each,
  process_tool_calls,
}
use mock_agents.Tools.Paths.{first_undefined, process_tool_calls_lem}

abbrev values : Values ℕ (List String) ℕ
values = record {
  values_equal = λ a b. a == b;
  is_empty = λ schema. length schema == 0;
  check = λ schema args. schema;
  status_ok = 200;
  rate_text = λ rate. "injected";
  quoted = λ s. s;
}

abbrev tools : List (ToolDefinition ℕ (List String) ℕ)
tools =
    record {
      name = "lookup";
      parameters = [];
      responses =
          record { match_args = []; response = some 1; error = none; is_default = true }
          ∷ record {
            match_args = record { key = "city"; val = 7 } ∷ [];
            response = none;
            error = some (record { code = "NO_CITY"; message = "no such city" });
            is_default = false;
          }
          ∷ [];
      validate = true;
      error_rate = 0;
    }
    ∷ []

abbrev call : String → ℕ → ToolCallSpec ℕ
call name city = record {
  name = name;
  arguments = record { key = "city"; val = city } ∷ [];
  id = "call_1";
  drawn = some 5000;
}

abbrev calls : List (ToolCallSpec ℕ)
calls = call "lookup" 7 ∷ call "weather" 1 ∷ call "lookup" 2 ∷ []

process_tool_calls_lem_example :
    ((process_tool_calls whole values calls tools).0
      ≡ (process_each whole values calls (index_tools whole values tools [])).0)
    × (map (λ (r : ToolCallResult ℕ). r.tool_name) (process_tool_calls whole values calls tools).0
        ≡ map (λ (c : ToolCallSpec ℕ). c.name) calls)
    × ((process_tool_calls whole values calls tools).1
        ≡ first_undefined whole values calls (index_tools whole values tools []))
process_tool_calls_lem_example = process_tool_calls_lem whole values calls tools
