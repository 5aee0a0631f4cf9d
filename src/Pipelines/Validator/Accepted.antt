-- ===== src/Pipelines/Validator/Accepted.antt =====
-- internal/config/pipeline_validator.go and internal/engine/pipeline.go: a document that the rules
-- accept does not fail for what the rules are about.
use mock_agents.Prelude.{
  ℕ, true, not, ◌&&◌, ◌||◌, String, Option, none, some, List, [], str_eq, ◌==◌, length, All, ◌≡◌,
  refl, sym, ap, ◌∙◌, by_test, subst,
}
use mock_agents.Request.{InboundRequest}
use mock_agents.Pipelines.{
  PipelineDefinition, PipelineError, PipelineResult, Response, run_sequential, topology_parallel,
  topology_graph,
}
use mock_agents.Pipelines.Graph.{Ran, index_nodes, run_graph}
use mock_agents.Pipelines.Run.{
  is_runnable, is_sequential, Outcome, errors_of, graph_outcome, run, run_by_topology, Answers,
  run_lem,
}
use mock_agents.Pipelines.Validator.{validate_pipeline_spec}
use mock_agents.Pipelines.Validator.Rules.{HasRef, Reaches, validate_pipeline_spec-rules}
use mock_agents.Pipelines.Validator.Errors.{
  IsRuntime, AtMost, run_sequential-AtMost, run_parallel-All,
}
use mock_agents.Pipelines.Validator.GraphErrors.{graph_fine}

module _ {R E W : Type 0} (process : InboundRequest → W → W × Option (Response R) × Option E) where
  errors_of-All :
      (o : Option (PipelineError E))
      → AtMost process o
      → All (IsRuntime process) (errors_of process o)
  errors_of-All none h = tt
  errors_of-All (some e) h = (h, tt)

  abbrev OnlyRuntime : Option (Outcome process) → Type 0
  OnlyRuntime none = Unit
  OnlyRuntime (some out) = All (IsRuntime process) out.2

  graph_outcome-OnlyRuntime :
      (def : PipelineDefinition) (o : Option (Ran process))
      → ((ran : Ran process) → o ≡ some ran → AtMost process ran.2)
      → OnlyRuntime (graph_outcome process def o)
  graph_outcome-OnlyRuntime def none fine = tt
  graph_outcome-OnlyRuntime def (some ran) fine = errors_of-All ran.2 (fine ran refl)

  run_by_topology-OnlyRuntime :
      (order : List ℕ) (def : PipelineDefinition) (input session : String) (w : W)
      → All HasRef def.spec.agents
      → All (Reaches (index_nodes def.spec.agents [])) def.spec.edges
      → (is_sequential def.spec.topology
          || (str_eq def.spec.topology topology_parallel
              || str_eq def.spec.topology topology_graph))
        ≡ true
      → OnlyRuntime (run_by_topology process order def input session w)
  unfolding run_by_topology
  run_by_topology-OnlyRuntime order def input session w refs known =
      let spec = def.spec in
      by_test
        (λ o.
          (is_sequential spec.topology
              || (str_eq spec.topology topology_parallel || str_eq spec.topology topology_graph))
            ≡ true
          → OnlyRuntime o)
        (is_sequential spec.topology) _ _
        (λ _ _.
          errors_of-All (run_sequential process def.name spec.agents input session w).2
            (run_sequential-AtMost process def.name spec.agents input session w refs))
        (λ other.
          by_test
            (λ o.
              (is_sequential spec.topology
                  || (str_eq spec.topology topology_parallel
                      || str_eq spec.topology topology_graph))
                ≡ true
              → OnlyRuntime o)
            (str_eq spec.topology topology_parallel) _ _
            (λ _ _. run_parallel-All process order def.name spec.agents input session w refs)
            (λ neither.
              by_test
                (λ o.
                  (is_sequential spec.topology
                      || (str_eq spec.topology topology_parallel
                          || str_eq spec.topology topology_graph))
                    ≡ true
                  → OnlyRuntime o)
                (str_eq spec.topology topology_graph) _ _
                (λ _ _.
                  graph_outcome-OnlyRuntime def
                    (run_graph process def.name spec.agents spec.edges input session w)
                    (graph_fine process def.name spec.agents spec.edges input session w refs known))
                (λ last runnable. absurd (
                  cc (
                    sym (
                      ap
                        (λ b.
                          b
                          || (str_eq spec.topology topology_parallel
                              || str_eq spec.topology topology_graph))
                        other
                      ∙ ap (λ b. b || str_eq spec.topology topology_graph) neither
                      ∙ last)
                    ∙ runnable)))))

  run-OnlyRuntime :
      (order : List ℕ) (def : PipelineDefinition) (input session : String) (w : W)
      → All HasRef def.spec.agents
      → All (Reaches (index_nodes def.spec.agents [])) def.spec.edges
      → is_runnable def ≡ true
      → OnlyRuntime (run process order (some def) input session w)
  unfolding run
  run-OnlyRuntime order def input session w refs known =
      by_test (λ o. is_runnable def ≡ true → OnlyRuntime o) (length def.spec.agents == 0) _ _
        (λ empty runnable. absurd (
          cc (
            sym (
              ap
                (λ b.
                  not b
                  && (is_sequential def.spec.topology
                      || (str_eq def.spec.topology topology_parallel
                          || str_eq def.spec.topology topology_graph)))
                empty)
            ∙ runnable)))
        (λ full runnable. run_by_topology-OnlyRuntime order def input session w refs known (
          sym (
            ap
              (λ b.
                not b
                && (is_sequential def.spec.topology
                    || (str_eq def.spec.topology topology_parallel
                        || str_eq def.spec.topology topology_graph)))
              full)
          ∙ runnable))

  outcome_of :
      (w : W) (o : Option (Outcome process))
      → Answers process true w o
      → OnlyRuntime o
      → (out : Outcome process) × (res : PipelineResult R) × (o ≡ some out)
        × (out.1 ≡ some res)
        × All (IsRuntime process) out.2
  outcome_of w none answers fine = absurd answers
  outcome_of w (some out) answers fine = (out, answers.0, refl, answers.1, fine)

  -- A run of a pipeline whose spec the validator's rules accept ends with a result, and every error
  -- of it is an engine's error, a missing response or the report of a cycle: never an unknown
  -- topology, an unknown node or a node without an agent.
  pub accepted_run :
      (trim_space : String → String) (order : List ℕ) (def : PipelineDefinition)
      (input session : String) (w : W)
      → validate_pipeline_spec trim_space def.spec ≡ []
      → (out : Outcome process) × (res : PipelineResult R) × (run process order
            (some def)
            input
            session
            w
          ≡ some out)
        × (out.1 ≡ some res)
        × All (IsRuntime process) out.2
  accepted_run trim_space order def input session w valid =
      let rules = validate_pipeline_spec-rules trim_space def valid in
      outcome_of w (run process order (some def) input session w)
        (subst (λ b. Answers process b w (run process order (some def) input session w)) rules.0
          (run_lem process order def input session w))
        (run-OnlyRuntime order def input session w rules.1 rules.2 rules.0)
