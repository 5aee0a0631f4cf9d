-- ===== src/Pipelines.antt =====
-- internal/engine/pipeline.go and internal/types/pipeline.go: pipelines of agents, run in sequence,
-- in parallel or along a graph. The engine that each node calls is the parameter `process`, on a
-- state `W`; it returns a response or an error, as Go's pair of two results. Latencies are not modelled.
pub mod Nodes
pub mod Parallel
pub mod Graph
pub mod Run
pub mod Validator
pub mod Registered
mod Examples
use text.Mathlib.Text.{find?}
use Prim.Native.String.{◌++◌ as followed_by}
use mock_agents.Prelude.{
  ℕ, zero, suc, ◌+◌, Bool, true, false, not, ◌&&◌, ◌||◌, String, Option, none, some, List, [], ◌∷◌,
  ◌++◌, map, if◌then◌else◌, ◌==◌, str_eq, Assoc, Entry, lookup, has, insert, delete, length,
  get_elem?, set_at, ℤ, pos, negsuc,
}
use mock_agents.Request.{InboundRequest, RequestMessage}

abbrev pub topology_sequential : String
topology_sequential = "sequential"

abbrev pub topology_parallel : String
topology_parallel = "parallel"

abbrev pub topology_graph : String
topology_graph = "graph"

pub record PipelineAgent : Type 0 where
  pub id : String
  pub ref : String

pub record PipelineEdge : Type 0 where
  pub from : String
  pub to : String
  pub when_contains : String

pub record PipelineSpec : Type 0 where
  pub topology : String
  pub agents : List PipelineAgent
  pub edges : List PipelineEdge

-- `name` is metadata.name.
pub record PipelineDefinition : Type 0 where
  pub api_version : String
  pub kind : String
  pub name : String
  pub spec : PipelineSpec

-- What follows the content is of the type `R`.
pub record Response (R : Type 0) : Type 0 where
  pub content : String
  pub rest : R

pub record NodeResult (R : Type 0) : Type 0 where
  pub node_id : String
  pub agent_name : String
  pub response : Option (Response R)

pub record PipelineResult (R : Type 0) : Type 0 where
  pub pipeline_name : String
  pub topology : String
  pub nodes : List (NodeResult R)

pub data PipelineError (E : Type 0) : Type 0 where
  nil_definition : PipelineError E
  no_agents : PipelineError E
  unknown_topology : String → PipelineError E
  has_cycle : List String → PipelineError E
  unknown_node : String → String → PipelineError E
  missing_ref : String → String → PipelineError E
  no_response : String → String → PipelineError E
  engine_error : E → PipelineError E

-- strings.Contains
abbrev pub contains : String → String → Bool
contains s part = elim (find? s part) [ none ↦ false | some _ ↦ true ]

module _ {R : Type 0} where
  -- `nodes` backwards, the loop of FinalResponse.
  unfoldable pub last_response : List (NodeResult R) → Option (Response R)
  last_response [] = none
  last_response (n ∷ ns) = elim (last_response ns) [ none ↦ n.response | some later ↦ some later ]

  unfoldable pub final_response : PipelineResult R → Option (Response R)
  final_response res = last_response res.nodes

  unfoldable pub response_of_node : String → List (NodeResult R) → Option (Response R)
  response_of_node id [] = none
  response_of_node id (n ∷ ns) = if str_eq n.node_id id then n.response else response_of_node id ns

  unfoldable pub response_by_node_id : String → PipelineResult R → Option (Response R)
  response_by_node_id id res = response_of_node id res.nodes

  -- `nr.Response.Content`. A nil response would be a panic; the callers have none without an error.
  abbrev pub content_of : NodeResult R → String
  content_of n = elim n.response [ none ↦ "" | some r ↦ r.content ]

module _ {R E W : Type 0} (process : InboundRequest → W → W × Option (Response R) × Option E) where
  abbrev pub node_error :
      String → String → Option (Response R) → Option E → Option (PipelineError E)
  node_error name id resp (some e) = some (engine_error e)
  node_error name id none none = some (no_response name id)
  node_error name id (some r) none = none

  abbrev pub node_request : String → PipelineAgent → String → String → InboundRequest
  node_request name node input session = record {
    agent_name = node.ref;
    model = "";
    session_id =
        followed_by session (followed_by "::" (followed_by name (followed_by "::" node.id)));
    messages = record { role = "user"; content = input; image_count = 0 } ∷ [];
    stream = false;
  }

  unfoldable pub invoke_node :
      String → PipelineAgent → String → String → W → W × NodeResult R × Option (PipelineError E)
  invoke_node name node input session w =
      if str_eq node.ref ""
      then (
        w,
        record { node_id = node.id; agent_name = ""; response = none },
        some (missing_ref name node.id),
      )
      else (let out = process (node_request name node input session) w in
          (
            out.0,
            record { node_id = node.id; agent_name = node.ref; response = out.1 },
            node_error name node.id out.1 out.2,
          ))

  -- The nodes so far and the error, if one ends the run.
  unfoldable pub run_sequential :
      String
      → List PipelineAgent
      → String
      → String
      → W
      → W × List (NodeResult R) × Option (PipelineError E)
  run_sequential name [] input session w = (w, [], none)
  run_sequential name (node ∷ rest) input session w =
      let out = invoke_node name node input session w in
      (elim out.2 [
        | some e ↦ (out.0, out.1 ∷ [], some e)
        | none ↦
            let later = run_sequential name rest (content_of out.1) session out.0 in
            (later.0, out.1 ∷ later.1, later.2)
      ])

  abbrev pub Slot : Type 0
  Slot = Option (NodeResult R × Option (PipelineError E))

  -- The goroutines call the engine in some order; each writes its own slots.
  unfoldable pub run_goroutines :
      List ℕ → String → List PipelineAgent → String → String → W × List Slot → W × List Slot
  run_goroutines [] name agents input session s = s
  run_goroutines (i ∷ order) name agents input session s =
      run_goroutines order name agents input session (elim (get_elem? agents i) [
        | none ↦ s
        | some node ↦
            let out = invoke_node name node input session s.0 in
            (out.0, set_at s.1 i (some (out.1, out.2)))
      ])

  unfoldable pub empty_slots : List PipelineAgent → List Slot
  empty_slots [] = []
  empty_slots (node ∷ rest) = none ∷ empty_slots rest

  unfoldable pub present : List Slot → List (NodeResult R)
  present [] = []
  present (none ∷ rest) = present rest
  present (some filled ∷ rest) = filled.0 ∷ present rest

  -- errors.Join: the errors that are not nil.
  unfoldable pub join : List Slot → List (PipelineError E)
  join [] = []
  join (none ∷ rest) = join rest
  join (some filled ∷ rest) = elim filled.1 [ none ↦ join rest | some e ↦ e ∷ join rest ]

  unfoldable pub run_parallel :
      List ℕ
      → String
      → List PipelineAgent
      → String
      → String
      → W
      → W × List (NodeResult R) × List (PipelineError E)
  run_parallel order name agents input session w =
      let done = run_goroutines order name agents input session (w, empty_slots agents) in
      (done.0, present done.1, join done.1)
