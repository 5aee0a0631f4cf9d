-- ===== src/Tools/Paths.antt =====
-- internal/engine/tool_processor.go: the two paths of ProcessToolCalls.
use mock_agents.Prelude.{
  true, String, Option, none, some, List, [], ◌∷◌, map, leb, ◌==◌, length, ◌⊎◌, inl, inr, Assoc,
  lookup, ◌≡◌, refl, ap, ◌∙◌, by_test, arith,
}
use mock_agents.Float.{Float64}
use mock_agents.Tools.{
  ToolError, ToolFailure, tool_not_found, parameter_validation, ToolDefinition, ToolCallSpec,
  ToolCallResult, Values, index_tools, resolved, violations, checked_call, call_tool, process_one,
  fatal, first_error, process_inline, process_each, first_fatal, process_tool_calls,
  resolve_tool_response,
}

module _ (f : Float64) {A P : Type 0} (v : Values A P f.F) where
  abbrev Index : Type 0
  Index = Assoc (ToolDefinition A P f.F)

  abbrev undefined_at : ToolCallSpec A → Option (ToolDefinition A P f.F) → Option ToolFailure
  undefined_at call none = some (tool_not_found call.name)
  undefined_at call (some tool) = none

  abbrev or_first : Option ToolFailure → Option ToolFailure → Option ToolFailure
  or_first none later = later
  or_first (some e) later = some e

  -- The first call of a tool that the agent does not define.
  abbrev pub first_undefined : List (ToolCallSpec A) → Index → Option ToolFailure
  first_undefined [] index = none
  first_undefined (call ∷ calls) index =
      or_first (undefined_at call (lookup call.name index)) (first_undefined calls index)

  resolved-tool_name :
      (call : ToolCallSpec A) (o : Option A ⊎ ToolError)
      → (resolved f v call o).tool_name ≡ call.name
  resolved-tool_name call (inr err) = refl
  resolved-tool_name call (inl none) = refl
  resolved-tool_name call (inl (some answer)) = refl

  checked_call_lem :
      (call : ToolCallSpec A) (tool : ToolDefinition A P f.F) (es : List String)
      → ((checked_call f v call tool es).0.tool_name ≡ call.name)
        × (fatal (checked_call f v call tool es).1 ≡ none)
  checked_call_lem call tool [] = (
    by_test (λ (x : ToolCallResult A). x.tool_name ≡ call.name) _ _ _ (λ _. refl)
        (λ _. resolved-tool_name call (resolve_tool_response f v tool.responses call.arguments)),
    refl,
  )
  checked_call_lem call tool (e ∷ es) = (refl, refl)

  process_one_lem :
      (call : ToolCallSpec A) (index : Index)
      → ((process_one f v call index).0.tool_name ≡ call.name)
        × (fatal (process_one f v call index).1 ≡ undefined_at call (lookup call.name index))
  unfolding process_one
  process_one_lem call index = at_tool (lookup call.name index)
    where
      at_tool :
          (o : Option (ToolDefinition A P f.F))
          → ((call_tool f v call o).0.tool_name ≡ call.name)
            × (fatal (call_tool f v call o).1 ≡ undefined_at call o)
      at_tool none = (refl, refl)
      at_tool (some tool) = checked_call_lem call tool (violations f v call tool)

  process_each-names :
      (calls : List (ToolCallSpec A)) (index : Index)
      → map (λ (r : ToolCallResult A). r.tool_name) (process_each f v calls index).0
        ≡ map (λ (c : ToolCallSpec A). c.name) calls
  unfolding process_each
  process_each-names [] index = refl
  process_each-names (call ∷ calls) index =
      ap (λ k. k ∷ map (λ (r : ToolCallResult A). r.tool_name) (process_each f v calls index).0)
        (process_one_lem call index).0
      ∙ ap (λ ks. call.name ∷ ks) (process_each-names calls index)

  or_first-fatal :
      (err : Option ToolFailure) (later : Option ToolFailure)
      → elim (fatal err) as (λ _. Option ToolFailure) [ none ↦ later | some e ↦ some e ]
        ≡ or_first (fatal err) later
  or_first-fatal none later = refl
  or_first-fatal (some (tool_not_found name)) later = refl
  or_first-fatal (some parameter_validation) later = refl

  first_fatal-first_undefined :
      (calls : List (ToolCallSpec A)) (index : Index)
      → first_fatal (process_each f v calls index).1 ≡ first_undefined calls index
  unfolding process_each first_fatal
  first_fatal-first_undefined [] index = refl
  first_fatal-first_undefined (call ∷ calls) index =
      or_first-fatal (process_one f v call index).1 (first_fatal (process_each f v calls index).1)
      ∙ ap (λ e. or_first e (first_fatal (process_each f v calls index).1))
          (process_one_lem call index).1
      ∙ ap (λ e. or_first (undefined_at call (lookup call.name index)) e)
          (first_fatal-first_undefined calls index)

  -- The inline path is the other one, with the error that it has already.
  inline_lem :
      (calls : List (ToolCallSpec A)) (index : Index) (first : Option ToolFailure)
      → process_inline f v calls index first ≡ (
        (process_each f v calls index).0,
        or_first first (first_fatal (process_each f v calls index).1),
      )
  unfolding process_inline process_each first_fatal
  inline_lem [] index none = refl
  inline_lem [] index (some e) = refl
  inline_lem (call ∷ calls) index first =
      let one = process_one f v call index in
      let each = process_each f v calls index in
      ap (λ (r : List (ToolCallResult A) × Option ToolFailure). (one.0 ∷ r.0, r.1))
        (inline_lem calls index (first_error first one.1))
      ∙ ap (λ e. (one.0 ∷ each.0, e)) (kept first one.1 (first_fatal each.1))
    where
      kept :
          (known err later : Option ToolFailure)
          → or_first (first_error known err) later
            ≡ or_first known
                (elim (fatal err) as (λ _. Option ToolFailure) [ none ↦ later | some e ↦ some e ])
      kept (some e) err later = refl
      kept none none later = refl
      kept none (some (tool_not_found name)) later = refl
      kept none (some parameter_validation) later = refl

  no_calls :
      (calls : List (ToolCallSpec A)) (index : Index)
      → (length calls == 0) ≡ true
      → ([] ≡ (process_each f v calls index).0)
        × (map (λ (r : ToolCallResult A). r.tool_name) []
            ≡ map (λ (c : ToolCallSpec A). c.name) calls)
        × (none ≡ first_undefined calls index)
  unfolding process_each
  no_calls [] index h = (refl, refl, refl)
  no_calls (call ∷ calls) index h = absurd (ground (arith, h))

  -- On either path, for any number of calls, with any ids and draws: the results are those of the
  -- calls one by one, each with its call's tool name, in order; and the error, if there is one, is
  -- that of the first call of a tool that the agent does not define, never one of validation.
  pub process_tool_calls_lem :
      (calls : List (ToolCallSpec A)) (tools : List (ToolDefinition A P f.F))
      → ((process_tool_calls f v calls tools).0
          ≡ (process_each f v calls (index_tools f v tools [])).0)
        × (map (λ (r : ToolCallResult A). r.tool_name) (process_tool_calls f v calls tools).0
            ≡ map (λ (c : ToolCallSpec A). c.name) calls)
        × ((process_tool_calls f v calls tools).1
            ≡ first_undefined calls (index_tools f v tools []))
  unfolding process_tool_calls process_each
  process_tool_calls_lem calls tools =
      let index = index_tools f v tools [] in
      let names = process_each-names calls index in
      let error = first_fatal-first_undefined calls index in
      by_test
        (λ (x : List (ToolCallResult A) × Option ToolFailure).
          (x.0 ≡ (process_each f v calls index).0)
          × (map (λ (r : ToolCallResult A). r.tool_name) x.0
              ≡ map (λ (c : ToolCallSpec A). c.name) calls)
          × (x.1 ≡ first_undefined calls index))
        (length calls == 0) ([], none) _ (λ empty. no_calls calls index empty)
        (λ _.
          by_test
            (λ (x : List (ToolCallResult A) × Option ToolFailure).
              (x.0 ≡ (process_each f v calls index).0)
              × (map (λ (r : ToolCallResult A). r.tool_name) x.0
                  ≡ map (λ (c : ToolCallSpec A). c.name) calls)
              × (x.1 ≡ first_undefined calls index))
            (leb (length calls) 2) (process_inline f v calls index none)
            ((process_each f v calls index).0, first_fatal (process_each f v calls index).1)
            (λ _.
              let inline = inline_lem calls index none in
              (
                ap (λ (x : List (ToolCallResult A) × Option ToolFailure). x.0) inline,
                ap
                      (λ (x : List (ToolCallResult A) × Option ToolFailure).
                        map (λ (r : ToolCallResult A). r.tool_name) x.0)
                      inline
                    ∙ names,
                ap (λ (x : List (ToolCallResult A) × Option ToolFailure). x.1) inline ∙ error,
              ))
            (λ _. (refl, names, error)))
