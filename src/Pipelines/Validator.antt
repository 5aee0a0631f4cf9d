-- ===== src/Pipelines/Validator.antt =====
-- internal/config/pipeline_validator.go: the rules for a pipeline document, but for those on cycles
-- and reachability. An issue has what the message tells; fields with an index have it as a number.
-- `trim_space` is strings.TrimSpace, and `matches_name` the pattern of names.
pub mod Rules
pub mod Errors
pub mod GraphErrors
pub mod Accepted
use Prim.Native.String.{len}
use mock_agents.Prelude.{
  ℕ, suc, Bool, true, false, not, ◌&&◌, ◌||◌, String, Option, none, some, List, [], ◌∷◌, ◌++◌,
  if◌then◌else◌, str_eq, ltb, ◌==◌, Assoc, lookup, has, insert, length,
}
use mock_agents.Pipelines.{
  topology_sequential, topology_parallel, topology_graph, PipelineAgent, PipelineEdge, PipelineSpec,
  PipelineDefinition,
}

abbrev pub agent_api_version : String
agent_api_version = "mockagents/v1"

abbrev pub pipeline_kind : String
pipeline_kind = "Pipeline"

pub data Issue : Type 0 where
  missing_api_version : Issue
  unsupported_version : String → Issue
  missing_kind : Issue
  unsupported_kind : String → Issue
  missing_name : Issue
  long_name : ℕ → Issue
  invalid_name : String → Issue
  missing_topology : Issue
  invalid_topology : String → Issue
  no_agents_declared : Issue
  missing_id : ℕ → Issue
  missing_agent_ref : ℕ → Issue
  duplicate_id : ℕ → String → ℕ → Issue
  edges_not_honored : String → Issue
  missing_from : ℕ → Issue
  unknown_from : ℕ → String → Issue
  missing_to : ℕ → Issue
  unknown_to : ℕ → String → Issue
  self_loop : ℕ → String → Issue
  blank_guard : ℕ → Issue
  duplicate_edge : ℕ → PipelineEdge → ℕ → Issue

abbrev pub valid_pipeline_topologies : List String
valid_pipeline_topologies = topology_sequential ∷ topology_parallel ∷ topology_graph ∷ []

abbrev pub when_issue : Bool → Issue → List Issue
when_issue b issue = if b then issue ∷ [] else []

unfoldable pub validate_pipeline_api_version : PipelineDefinition → List Issue
validate_pipeline_api_version def =
    if str_eq def.api_version ""
    then missing_api_version ∷ []
    else when_issue (not (str_eq def.api_version agent_api_version))
        (unsupported_version def.api_version)

unfoldable pub validate_pipeline_kind : PipelineDefinition → List Issue
validate_pipeline_kind def =
    if str_eq def.kind ""
    then missing_kind ∷ []
    else when_issue (not (str_eq def.kind pipeline_kind)) (unsupported_kind def.kind)

unfoldable pub validate_pipeline_metadata : (String → Bool) → PipelineDefinition → List Issue
validate_pipeline_metadata matches_name def =
    if str_eq def.name ""
    then missing_name ∷ []
    else when_issue (ltb 63 (len def.name)) (long_name (len def.name))
      ++ when_issue (not (matches_name def.name)) (invalid_name def.name)

unfoldable pub is_listed : String → List String → Bool
is_listed topology [] = false
is_listed topology (t ∷ rest) = if str_eq topology t then true else is_listed topology rest

unfoldable pub topology_issues : String → List Issue
topology_issues topology =
    if str_eq topology ""
    then missing_topology ∷ []
    else when_issue (not (is_listed topology valid_pipeline_topologies)) (invalid_topology topology)

abbrev pub agent_issues : ℕ → PipelineAgent → Assoc ℕ → List Issue
agent_issues i a seen =
    if str_eq a.id ""
    then missing_id i ∷ []
    else when_issue (str_eq a.ref "") (missing_agent_ref i)
      ++ (elim (lookup a.id seen) [ none ↦ [] | some prev ↦ duplicate_id i a.id prev ∷ [] ])

abbrev pub next_seen : ℕ → PipelineAgent → Assoc ℕ → Assoc ℕ
next_seen i a seen =
    if str_eq a.id "" then seen else if has a.id seen then seen else insert a.id i seen

-- The loop over the agents, with the first index of every id.
unfoldable pub check_agents : ℕ → List PipelineAgent → Assoc ℕ → List Issue × Assoc ℕ
check_agents i [] seen = ([], seen)
check_agents i (a ∷ rest) seen =
    let later = check_agents (suc i) rest (next_seen i a seen) in
    (agent_issues i a seen ++ later.0, later.1)

-- The index of an earlier edge with the same ends and guard.
unfoldable pub seen_edge : PipelineEdge → List (PipelineEdge × ℕ) → Option ℕ
seen_edge e [] = none
seen_edge e (s ∷ rest) =
    if str_eq s.0.from e.from && (str_eq s.0.to e.to && str_eq s.0.when_contains e.when_contains)
    then some s.1
    else seen_edge e rest

abbrev pub from_issues : ℕ → Assoc ℕ → PipelineEdge → List Issue
from_issues i seen e =
    if str_eq e.from ""
    then missing_from i ∷ []
    else when_issue (not (has e.from seen)) (unknown_from i e.from)

abbrev pub to_issues : ℕ → Assoc ℕ → PipelineEdge → List Issue
to_issues i seen e =
    if str_eq e.to ""
    then missing_to i ∷ []
    else when_issue (not (has e.to seen)) (unknown_to i e.to)

abbrev pub edge_issues : (String → String) → ℕ → Assoc ℕ → PipelineEdge → List Issue
edge_issues trim_space i seen e =
    from_issues i seen e
    ++ (to_issues i seen e
        ++ (when_issue (not (str_eq e.from "") && str_eq e.from e.to) (self_loop i e.from)
            ++ when_issue
                (not (str_eq e.when_contains "") && str_eq (trim_space e.when_contains) "")
                (blank_guard i)))

abbrev pub duplicate_issues : ℕ → PipelineEdge → List (PipelineEdge × ℕ) → List Issue
duplicate_issues i e seen_edges =
    if str_eq e.from "" || str_eq e.to ""
    then []
    else elim (seen_edge e seen_edges) [ none ↦ [] | some prev ↦ duplicate_edge i e prev ∷ [] ]

abbrev pub next_edges : ℕ → PipelineEdge → List (PipelineEdge × ℕ) → List (PipelineEdge × ℕ)
next_edges i e seen_edges =
    if str_eq e.from "" || str_eq e.to ""
    then seen_edges
    else elim (seen_edge e seen_edges) [ none ↦ (e, i) ∷ seen_edges | some prev ↦ seen_edges ]

unfoldable pub check_edges :
    (String → String) → ℕ → Assoc ℕ → List PipelineEdge → List (PipelineEdge × ℕ) → List Issue
check_edges trim_space i seen [] seen_edges = []
check_edges trim_space i seen (e ∷ rest) seen_edges =
    edge_issues trim_space i seen e
    ++ (duplicate_issues i e seen_edges
        ++ check_edges trim_space (suc i) seen rest (next_edges i e seen_edges))

abbrev pub honor_issues : PipelineSpec → List Issue
honor_issues spec =
    when_issue
      (not (length spec.edges == 0)
        && (not (str_eq spec.topology "") && not (str_eq spec.topology topology_graph)))
      (edges_not_honored spec.topology)

unfoldable pub validate_pipeline_spec : (String → String) → PipelineSpec → List Issue
validate_pipeline_spec trim_space spec =
    let agents = check_agents 0 spec.agents [] in
    topology_issues spec.topology
    ++ (when_issue (length spec.agents == 0) no_agents_declared
        ++ (agents.0 ++ (honor_issues spec ++ check_edges trim_space 0 agents.1 spec.edges [])))
