-- ===== src/Pipelines/Run.antt =====
-- internal/engine/pipeline.go: RunContext, over the three executors.
use mock_agents.Prelude.{
  ℕ, Bool, true, false, not, ◌&&◌, ◌||◌, String, Option, none, some, List, [], ◌∷◌, if◌then◌else◌,
  str_eq, length, ◌==◌, ◌≡◌, refl, inl, inr, Bool-cases,
}
use mock_agents.Request.{InboundRequest}
use mock_agents.Pipelines.{
  topology_sequential, topology_parallel, topology_graph, PipelineDefinition, PipelineResult,
  PipelineError, nil_definition, no_agents, unknown_topology, Response, NodeResult, run_sequential,
  run_parallel,
}
use mock_agents.Pipelines.Graph.{Ran, run_graph}
use mock_agents.Pipelines.Graph.Runs.{run_graph_ends}

abbrev pub is_sequential : String → Bool
is_sequential topology = str_eq topology topology_sequential || str_eq topology ""

-- A known topology, and agents.
abbrev pub is_runnable : PipelineDefinition → Bool
is_runnable def =
    not (length def.spec.agents == 0)
    && (is_sequential def.spec.topology
        || (str_eq def.spec.topology topology_parallel || str_eq def.spec.topology topology_graph))

module _ {R E W : Type 0} (process : InboundRequest → W → W × Option (Response R) × Option E) where
  -- The engine's state, the result, and the errors: none of them is Go's nil error.
  abbrev pub Outcome : Type 0
  Outcome = W × Option (PipelineResult R) × List (PipelineError E)

  abbrev pub errors_of : Option (PipelineError E) → List (PipelineError E)
  errors_of none = []
  errors_of (some e) = e ∷ []

  abbrev pub with_nodes : PipelineDefinition → List (NodeResult R) → PipelineResult R
  with_nodes def nodes = record {
    pipeline_name = def.name;
    topology = def.spec.topology;
    nodes = nodes;
  }

  abbrev pub graph_outcome : PipelineDefinition → Option (Ran process) → Option Outcome
  graph_outcome def none = none
  graph_outcome def (some ran) = some (ran.0, some (with_nodes def ran.1), errors_of ran.2)

  -- The switch on the topology.
  unfoldable pub run_by_topology :
      List ℕ → PipelineDefinition → String → String → W → Option Outcome
  run_by_topology order def input session w =
      if is_sequential def.spec.topology
      then (let ran = run_sequential process def.name def.spec.agents input session w in
          some (ran.0, some (with_nodes def ran.1), errors_of ran.2))
      else (if str_eq def.spec.topology topology_parallel
          then (let ran = run_parallel process order def.name def.spec.agents input session w in
              some (ran.0, some (with_nodes def ran.1), ran.2))
          else (if str_eq def.spec.topology topology_graph
              then graph_outcome def
                  (run_graph process def.name def.spec.agents def.spec.edges input session w)
              else some (w, none, unknown_topology def.spec.topology ∷ [])))

  -- `order` is the order in which goroutines call the engine; `none` is that fuel is out.
  unfoldable pub run : List ℕ → Option PipelineDefinition → String → String → W → Option Outcome
  run order none input session w = some (w, none, nil_definition ∷ [])
  run order (some def) input session w =
      if length def.spec.agents == 0
      then some (w, none, no_agents ∷ [])
      else run_by_topology order def input session w

  -- There is an outcome; it has a result or leaves the engine alone and has one error.
  abbrev pub Answers : Bool → W → Option Outcome → Type 0
  Answers runnable w none = ⊥
  Answers true w (some out) = (res : PipelineResult R) × (out.1 ≡ some res)
  Answers false w (some out) = (out.0 ≡ w) × (out.1 ≡ none) × (length out.2 ≡ 1)

  graph_Answers :
      (def : PipelineDefinition) (w : W) (o : Option (Ran process)) (ran : Ran process)
      → o ≡ some ran
      → Answers true w (graph_outcome def o)
  graph_Answers def w none ran h = absurd (cc h)
  graph_Answers def w (some r) ran h = (with_nodes def r.1, refl)

  -- Every run of a definition ends with an outcome, for every engine, input and order of goroutines.
  -- It has a result, perhaps with errors, exactly when the definition has agents and a known
  -- topology; otherwise it has one error, no result, and has not called the engine.
  pub run_lem :
      (order : List ℕ) (def : PipelineDefinition) (input session : String) (w : W)
      → Answers (is_runnable def) w (run order (some def) input session w)
  unfolding run run_by_topology
  run_lem order def input session w = elim (Bool-cases (length def.spec.agents == 0)) [
    | inl empty ↦ rw empty (refl, refl, refl)
    | inr full ↦ rw full (elim (Bool-cases (is_sequential def.spec.topology)) [
      | inl sequential ↦ rw sequential (_, refl)
      | inr other ↦ rw other (elim (Bool-cases (str_eq def.spec.topology topology_parallel)) [
        | inl parallel ↦ rw parallel (_, refl)
        | inr neither ↦ rw neither (elim (Bool-cases (str_eq def.spec.topology topology_graph)) [
          | inl graph ↦
              let ends =
                run_graph_ends process def.name def.spec.agents def.spec.edges input session w in
              rw graph (
                graph_Answers def w
                  (run_graph process def.name def.spec.agents def.spec.edges input session w) ends.0
                  ends.1)
          | inr unknown ↦ rw unknown (refl, refl, refl)
        ])
      ])
    ])
  ]
