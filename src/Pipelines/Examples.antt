-- ===== src/Pipelines/Examples.antt =====
-- A diamond of four nodes, one of them behind a guard, on an engine that counts its calls and
-- answers with the agent's name; an agent called "down" fails.
use mock_agents.Prelude.{
  ℕ, zero, suc, ◌+◌, ◌<◌, String, Option, none, some, List, [], ◌∷◌, map, length, In, inl, inr, All,
  ◌≡◌, refl, arith, str_eq, if◌then◌else◌, lookup, has, insert,
}
use mock_agents.Request.{InboundRequest}
use mock_agents.Pipelines.{
  PipelineAgent, PipelineEdge, PipelineDefinition, PipelineResult, Response, NodeResult,
  run_parallel,
}
use mock_agents.Pipelines.Graph.{Ran, run_graph}
use mock_agents.Pipelines.Graph.Walking.{NoRepeat}
use mock_agents.Pipelines.Graph.Runs.{run_graph_ends}
use mock_agents.Pipelines.Parallel.{run_parallel_lem}
use mock_agents.Pipelines.Run.{Outcome, run, is_runnable, Answers, run_lem}
use mock_agents.Pipelines.Validator.{
  validate_pipeline_spec, topology_issues, is_listed, check_agents, check_edges, seen_edge,
}
use mock_agents.Pipelines.Validator.Errors.{IsRuntime}
use mock_agents.Pipelines.Validator.Accepted.{accepted_run}

abbrev answer : InboundRequest → ℕ → ℕ × Option (Response ℕ) × Option String
answer req calls =
    if str_eq req.agent_name "down"
    then (calls + 1, none, some "down")
    else (calls + 1, some (record { content = req.agent_name; rest = calls }), none)

abbrev node : String → String → PipelineAgent
node id ref = record { id = id; ref = ref }

abbrev edge : String → String → String → PipelineEdge
edge from to guard = record { from = from; to = to; when_contains = guard }

abbrev agents : List PipelineAgent
agents = node "a" "router" ∷ node "b" "writer" ∷ node "c" "down" ∷ node "d" "editor" ∷ []

abbrev edges : List PipelineEdge
edges = edge "a" "b" "rout" ∷ edge "a" "c" "never" ∷ edge "b" "d" "" ∷ edge "c" "d" "" ∷ []

abbrev diamond : PipelineDefinition
diamond = record {
  api_version = "mockagents/v1";
  kind = "Pipeline";
  name = "diamond";
  spec = record { topology = "graph"; agents = agents; edges = edges };
}

run_graph_ends_example :
    (ran : Ran answer) × (run_graph answer "diamond" agents edges "hello" "s" 0 ≡ some ran)
    × NoRepeat ran.1
run_graph_ends_example = run_graph_ends answer "diamond" agents edges "hello" "s" 0

run_lem_example :
    Answers answer (is_runnable diamond) 0 (run answer [] (some diamond) "hello" "s" 0)
run_lem_example = run_lem answer [] diamond "hello" "s" 0

abbrev backwards : List ℕ
backwards = 3 ∷ 1 ∷ 0 ∷ 2 ∷ []

backwards_covers : (i : ℕ) → i < length agents → In i backwards
backwards_covers zero h = inr (inr (inl refl))
backwards_covers (suc zero) h = inr (inl refl)
backwards_covers (suc (suc zero)) h = inr (inr (inr (inl refl)))
backwards_covers (suc (suc (suc zero))) h = inl refl
backwards_covers (suc (suc (suc (suc i)))) h = absurd (omega (arith, h))

run_parallel_lem_example :
    map
      (λ (n : NodeResult ℕ). n.node_id)
      (run_parallel answer backwards "diamond" agents "hello" "s" 0).1
    ≡ map (λ (a : PipelineAgent). a.id) agents
run_parallel_lem_example =
    run_parallel_lem answer backwards "diamond" agents "hello" "s" 0 backwards_covers

accepted_run_example :
    (out : Outcome answer) × (res : PipelineResult ℕ) × (run answer [] (some diamond) "hello" "s" 0
      ≡ some out)
    × (out.1 ≡ some res)
    × All (IsRuntime answer) out.2
unfolding validate_pipeline_spec topology_issues is_listed check_agents check_edges seen_edge lookup
    has insert
accepted_run_example = accepted_run answer (λ s. s) [] diamond "hello" "s" 0 refl
