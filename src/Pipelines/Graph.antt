-- ===== src/Pipelines/Graph.antt =====
-- internal/engine/pipeline.go: the graph executor, which turns cyclic graphs away and then walks
-- from the roots. The loops run on fuel; `none` is that the fuel is out.
pub mod Peeling
pub mod Walking
pub mod Runs
use mock_agents.Prelude.{
  ℕ, zero, suc, ◌+◌, Bool, true, false, not, ◌&&◌, ◌||◌, String, Option, none, some, List, [], ◌∷◌,
  ◌++◌, map, if◌then◌else◌, ◌==◌, str_eq, Assoc, Entry, lookup, has, insert, delete, length, ℤ, pos,
  negsuc,
}
use mock_agents.Request.{InboundRequest}
use mock_agents.Pipelines.{
  PipelineAgent, PipelineEdge, PipelineError, has_cycle, unknown_node, Response, NodeResult,
  invoke_node, content_of, contains,
}

-- A repeated id has its last node.
unfoldable pub index_nodes : List PipelineAgent → Assoc PipelineAgent → Assoc PipelineAgent
index_nodes [] nodes = nodes
index_nodes (n ∷ rest) nodes = index_nodes rest (insert n.id n nodes)

abbrev pub edges_of : String → Assoc (List PipelineEdge) → List PipelineEdge
edges_of id outgoing = elim (lookup id outgoing) [ none ↦ [] | some edges ↦ edges ]

unfoldable pub outgoing_edges :
    List PipelineEdge → Assoc (List PipelineEdge) → Assoc (List PipelineEdge)
outgoing_edges [] outgoing = outgoing
outgoing_edges (e ∷ rest) outgoing =
    outgoing_edges rest (insert e.from (edges_of e.from outgoing ++ e ∷ []) outgoing)

unfoldable pub no_edges_in : List PipelineAgent → Assoc ℕ → Assoc ℕ
no_edges_in [] indegree = indegree
no_edges_in (n ∷ rest) indegree = no_edges_in rest (insert n.id 0 indegree)

abbrev pub count_at : String → Assoc ℕ → ℕ
count_at id indegree = elim (lookup id indegree) [ none ↦ 0 | some d ↦ d ]

-- Whether an edge counts as inbound: no self-loop, and both ends are nodes.
abbrev pub is_counted : Assoc PipelineAgent → PipelineEdge → Bool
is_counted nodes e = if str_eq e.from e.to then false else has e.from nodes && has e.to nodes

unfoldable pub count_edges : Assoc PipelineAgent → List PipelineEdge → Assoc ℕ → Assoc ℕ
count_edges nodes [] indegree = indegree
count_edges nodes (e ∷ rest) indegree =
    count_edges nodes rest
      (if is_counted nodes e then insert e.to (count_at e.to indegree + 1) indegree else indegree)

-- The working copy may go below 0.
unfoldable pub copy_counts : Assoc ℕ → Assoc ℤ
copy_counts [] = []
copy_counts (e ∷ rest) = record { key = e.key; val = pos e.val } ∷ copy_counts rest

abbrev pub is_zero : ℤ → Bool
is_zero (pos zero) = true
is_zero (pos (suc n)) = false
is_zero (negsuc n) = false

-- `n--`
abbrev pub decrement : ℤ → ℤ
decrement (pos zero) = negsuc 0
decrement (pos (suc n)) = pos n
decrement (negsuc n) = negsuc (suc n)

unfoldable pub start_queue : Assoc ℤ → List String
start_queue [] = []
start_queue (e ∷ rest) = if is_zero e.val then e.key ∷ start_queue rest else start_queue rest

-- One edge of a node that is peeled.
abbrev pub relax_edge : PipelineEdge → Assoc ℤ × List String → Assoc ℤ × List String
relax_edge e s = if str_eq e.from e.to then s else (elim (lookup e.to s.0) [
  | none ↦ s
  | some d ↦
      (insert e.to (decrement d) s.0, if is_zero (decrement d) then s.1 ++ e.to ∷ [] else s.1)
])

unfoldable pub relax : List PipelineEdge → Assoc ℤ × List String → Assoc ℤ × List String
relax [] s = s
relax (e ∷ rest) s = relax rest (relax_edge e s)

unfoldable pub peel : ℕ → Assoc (List PipelineEdge) → Assoc ℤ × List String → Option (Assoc ℤ)
peel fuel outgoing (remaining, []) = some remaining
peel zero outgoing (remaining, id ∷ queue) = none
peel (suc fuel) outgoing (remaining, id ∷ queue) =
    peel fuel outgoing (relax (edges_of id outgoing) (delete id remaining, queue))

unfoldable pub left_over : List PipelineAgent → Assoc ℤ → List String
left_over [] remaining = []
left_over (n ∷ rest) remaining =
    if has n.id remaining
    then n.id ∷ left_over rest (delete n.id remaining)
    else left_over rest remaining

unfoldable pub cyclic_nodes :
    ℕ → List PipelineAgent → Assoc (List PipelineEdge) → Assoc ℕ → Option (List String)
cyclic_nodes fuel agents outgoing indegree =
    let remaining = copy_counts indegree in
    (elim (peel fuel outgoing (remaining, start_queue remaining)) [
      | none ↦ none
      | some rest ↦ some (left_over agents rest)
    ])

-- Enough for the peeling, and for the walk.
abbrev pub peel_fuel : List PipelineAgent → List PipelineEdge → ℕ
peel_fuel agents edges = length agents + length edges

abbrev pub walk_fuel : List PipelineAgent → ℕ
walk_fuel agents = suc (length agents)

module _ {R E W : Type 0} (process : InboundRequest → W → W × Option (Response R) × Option E) where
  -- What the walk has done: the ids it has visited and the nodes it has run.
  pub record Walk : Type 0 where
    pub visited : Assoc Bool
    pub nodes : List (NodeResult R)
    pub world : W

  abbrev pub Walked : Type 0
  Walked = Option (Walk × Option (PipelineError E))

  abbrev pub is_pruned : String → PipelineEdge → Bool
  is_pruned content e = not (str_eq e.when_contains "") && not (contains content e.when_contains)

  -- The loop over the edges of a node, with the walk that it calls.
  unfoldable pub follow :
      (String → String → Walk → Walked) → String → List PipelineEdge → Walk → Walked
  follow go content [] st = some (st, none)
  follow go content (e ∷ rest) st = elim (is_pruned content e) [
    | true ↦ follow go content rest st
    | false ↦ elim (go e.to content st) [
      | none ↦ none
      | some (later, some err) ↦ some (later, some err)
      | some (later, none) ↦ follow go content rest later
    ]
  ]

  abbrev pub mark : String → Walk → Walk
  mark id st = record st { visited = insert id true st.visited }

  abbrev pub append_result : NodeResult R → W → Walk → Walk
  append_result nr w st = record st { nodes = st.nodes ++ nr ∷ []; world = w }

  unfoldable pub walk :
      ℕ
      → String
      → Assoc PipelineAgent
      → Assoc (List PipelineEdge)
      → String
      → String
      → String
      → Walk
      → Walked
  walk zero name nodes_by_id outgoing session id input st = none
  walk (suc fuel) name nodes_by_id outgoing session id input st = elim (has id st.visited) [
    | true ↦ some (st, none)
    | false ↦ elim (lookup id nodes_by_id) [
      | none ↦ some (mark id st, some (unknown_node name id))
      | some node ↦
          let out = invoke_node process name node input session st.world in
          let ran = append_result out.1 out.0 (mark id st) in
          (elim out.2 [
            | some err ↦ some (ran, some err)
            | none ↦
                follow (walk fuel name nodes_by_id outgoing session) (content_of out.1)
                  (edges_of id outgoing) ran
          ])
    ]
  ]

  unfoldable pub walk_roots :
      (String → String → Walk → Walked) → Assoc ℕ → String → List PipelineAgent → Walk → Walked
  walk_roots go indegree input [] st = some (st, none)
  walk_roots go indegree input (n ∷ rest) st = elim (count_at n.id indegree == 0) [
    | false ↦ walk_roots go indegree input rest st
    | true ↦ elim (go n.id input st) [
      | none ↦ none
      | some (later, some err) ↦ some (later, some err)
      | some (later, none) ↦ walk_roots go indegree input rest later
    ]
  ]

  abbrev pub Ran : Type 0
  Ran = W × List (NodeResult R) × Option (PipelineError E)

  unfoldable pub run_graph :
      String → List PipelineAgent → List PipelineEdge → String → String → W → Option Ran
  run_graph name agents edges input session w =
      let nodes_by_id = index_nodes agents [] in
      let outgoing = outgoing_edges edges [] in
      let indegree = count_edges nodes_by_id edges (no_edges_in agents []) in
      (elim (cyclic_nodes (peel_fuel agents edges) agents outgoing indegree) [
        | none ↦ none
        | some (id ∷ ids) ↦ some (w, [], some (has_cycle (id ∷ ids)))
        | some [] ↦
            elim (walk_roots (walk (walk_fuel agents) name nodes_by_id outgoing session) indegree
              input agents (record { visited = []; nodes = []; world = w })) [
                | none ↦ none
                | some (st, err) ↦ some (st.world, st.nodes, err)
              ]
      ])
