-- ===== src/Pipelines/Validator/GraphErrors.antt =====
-- internal/engine/pipeline.go: the errors of the graph executor, where every node has an agent and
-- every edge ends in a node.
use mock_agents.Prelude.{
  ℕ, zero, suc, Bool, true, false, String, Option, none, some, List, [], ◌∷◌, ◌++◌, str_eq, ◌==◌,
  Assoc, lookup, has, insert, All, ◌≡◌, refl, sym, ap, ◌∙◌, by_test, subst, lookup-insert,
  some-injective, has-lookup,
}
use mock_agents.Request.{InboundRequest}
use mock_agents.Pipelines.{
  PipelineAgent, PipelineEdge, PipelineError, has_cycle, unknown_node, Response, invoke_node,
  content_of,
}
use mock_agents.Pipelines.Graph.{
  Ran, Walk, Walked, index_nodes, outgoing_edges, edges_of, count_edges, no_edges_in, count_at,
  is_pruned, follow, mark, append_result, walk, walk_roots, walk_fuel, peel_fuel, cyclic_nodes,
  run_graph,
}
use mock_agents.Pipelines.Graph.Walking.{index_nodes-reads}
use mock_agents.Pipelines.Graph.Runs.{on_test}
use mock_agents.Pipelines.Validator.Rules.{HasRef, Reaches, index_nodes-All}
use mock_agents.Pipelines.Validator.Errors.{AtMost, invoke_node-AtMost}

-- The edges of a node are edges of the pipeline.
outgoing_edges-All :
    (P : PipelineEdge → Type 0) (edges : List PipelineEdge) (outgoing : Assoc (List PipelineEdge))
    → ((id : String) → All P (edges_of id outgoing))
    → All P edges
    → (id : String) → All P (edges_of id (outgoing_edges edges outgoing))
unfolding outgoing_edges
outgoing_edges-All P [] outgoing before all id = before id
outgoing_edges-All P (e ∷ rest) outgoing before all id =
    outgoing_edges-All P rest (insert e.from (edges_of e.from outgoing ++ e ∷ []) outgoing) written
      all.1 id
  where
    append_one : (xs : List PipelineEdge) → All P xs → All P (xs ++ e ∷ [])
    append_one [] h = (all.0, tt)
    append_one (x ∷ xs) h = (h.0, append_one xs h.1)

    written :
        (k : String)
        → All P (edges_of k (insert e.from (edges_of e.from outgoing ++ e ∷ []) outgoing))
    written k =
        subst (λ o. All P (elim o as (λ _. List PipelineEdge) [ none ↦ [] | some xs ↦ xs ]))
          (sym (lookup-insert e.from k (edges_of e.from outgoing ++ e ∷ []) outgoing))
          (by_test (λ o. All P (elim o as (λ _. List PipelineEdge) [ none ↦ [] | some xs ↦ xs ]))
            (str_eq e.from k) (some (edges_of e.from outgoing ++ e ∷ [])) (lookup k outgoing)
            (λ _. append_one (edges_of e.from outgoing) (before e.from)) (λ _. before k))

module _ {R E W : Type 0} (process : InboundRequest → W → W × Option (Response R) × Option E) where
  abbrev Fine : Walked process → Type 0
  Fine none = Unit
  Fine (some out) = AtMost process out.1

  next-Fine :
      (o : Walked process) (next : Walk process → Walked process)
      → Fine o
      → ((later : Walk process) → Fine (next later))
      → Fine (elim o as (λ _. Walked process) [
        | none ↦ none
        | some (later, some err) ↦ some (later, some err)
        | some (later, none) ↦ next later
      ])
  next-Fine none next fine rest = tt
  next-Fine (some (later, some err)) next fine rest = fine
  next-Fine (some (later, none)) next fine rest = rest later

  follow-Fine :
      (nodes : Assoc PipelineAgent) (go : String → String → Walk process → Walked process)
      (content : String) (edges : List PipelineEdge) (st : Walk process)
      → ((id input : String) (later : Walk process)
          → has id nodes ≡ true
          → Fine (go id input later))
      → All (Reaches nodes) edges
      → Fine (follow process go content edges st)
  unfolding follow
  follow-Fine nodes go content [] st called known = tt
  follow-Fine nodes go content (e ∷ rest) st called known =
      on_test (λ o. Fine o) (is_pruned process content e) _ _
        (follow-Fine nodes go content rest st called known.1)
        (next-Fine (go e.to content st) (follow process go content rest)
          (called e.to content st known.0)
          (λ later. follow-Fine nodes go content rest later called known.1))

  walk_roots-Fine :
      (nodes : Assoc PipelineAgent) (go : String → String → Walk process → Walked process)
      (indegree : Assoc ℕ) (input : String) (agents : List PipelineAgent) (st : Walk process)
      → ((id content : String) (later : Walk process)
          → has id nodes ≡ true
          → Fine (go id content later))
      → All (λ (a : PipelineAgent). has a.id nodes ≡ true) agents
      → Fine (walk_roots process go indegree input agents st)
  unfolding walk_roots
  walk_roots-Fine nodes go indegree input [] st called known = tt
  walk_roots-Fine nodes go indegree input (a ∷ rest) st called known =
      on_test (λ o. Fine o) (count_at a.id indegree == 0) _ _
        (next-Fine (go a.id input st) (walk_roots process go indegree input rest)
          (called a.id input st known.0)
          (λ later. walk_roots-Fine nodes go indegree input rest later called known.1))
        (walk_roots-Fine nodes go indegree input rest st called known.1)

  -- The nodes that a walk looks up have agents, and their edges end in nodes.
  abbrev Sound : Assoc PipelineAgent → Assoc (List PipelineEdge) → Type 0
  Sound nodes outgoing =
      ((id : String) (node : PipelineAgent) → lookup id nodes ≡ some node → HasRef node)
      × ((id : String) → All (Reaches nodes) (edges_of id outgoing))

  ran-Fine :
      (o : Option (PipelineError E)) (ran : Walk process) (next : Walked process)
      → AtMost process o
      → Fine next
      → Fine (elim o as (λ _. Walked process) [ some err ↦ some (ran, some err) | none ↦ next ])
  ran-Fine none ran next h fine = fine
  ran-Fine (some err) ran next h fine = h

  visit-Fine :
      (name : String) (nodes : Assoc PipelineAgent) (outgoing : Assoc (List PipelineEdge))
      (session id input : String) (st : Walk process)
      (go : String → String → Walk process → Walked process)
      → Sound nodes outgoing
      → ((edge_id content : String) (later : Walk process)
          → has edge_id nodes ≡ true
          → Fine (go edge_id content later))
      → has id nodes ≡ true
      → (found : Option PipelineAgent) → lookup id nodes ≡ found
      → Fine (elim found as (λ _. Walked process) [
        | none ↦ some (mark process id st, some (unknown_node name id))
        | some node ↦
            let out = invoke_node process name node input session st.world in
            let ran = append_result process out.1 out.0 (mark process id st) in
            (elim out.2 as (λ _. Walked process) [
              | some err ↦ some (ran, some err)
              | none ↦ follow process go (content_of out.1) (edges_of id outgoing) ran
            ])
      ])
  visit-Fine name nodes outgoing session id input st go sound called here none h = absurd (
      cc (
        sym here
        ∙ has-lookup id nodes
        ∙ ap (λ o. elim o as (λ _. Bool) [ none ↦ false | some _ ↦ true ]) h))
  visit-Fine name nodes outgoing session id input st go sound called here (some node) h =
      let out = invoke_node process name node input session st.world in
      ran-Fine out.2 (append_result process out.1 out.0 (mark process id st)) _
        (invoke_node-AtMost process name node input session st.world (sound.0 id node h))
        (follow-Fine nodes go (content_of out.1) (edges_of id outgoing)
          (append_result process out.1 out.0 (mark process id st)) called (sound.1 id))

  walk-Fine :
      (name : String) (nodes : Assoc PipelineAgent) (outgoing : Assoc (List PipelineEdge))
      (session : String)
      → Sound nodes outgoing
      → (fuel : ℕ) (id input : String) (st : Walk process) → has id nodes ≡ true
      → Fine (walk process fuel name nodes outgoing session id input st)
  unfolding walk
  walk-Fine name nodes outgoing session sound zero id input st here = tt
  walk-Fine name nodes outgoing session sound (suc fuel) id input st here =
      on_test (λ o. Fine o) (has id st.visited) (some (st, none)) _ tt
        (visit-Fine name nodes outgoing session id input st
          (walk process fuel name nodes outgoing session) sound
          (λ edge_id content later known.
            walk-Fine name nodes outgoing session sound fuel edge_id content later known)
          here (lookup id nodes) refl)

  Sound-start :
      (agents : List PipelineAgent) (edges : List PipelineEdge)
      → All HasRef agents
      → All (Reaches (index_nodes agents [])) edges
      → Sound (index_nodes agents []) (outgoing_edges edges [])
  unfolding lookup
  Sound-start agents edges refs known = (
    index_nodes-reads (λ id node. HasRef node) agents [] (λ id node h. absurd (cc h)) refs,
    outgoing_edges-All (Reaches (index_nodes agents [])) edges [] (λ id. tt) known,
  )

  pub graph_fine :
      (name : String) (agents : List PipelineAgent) (edges : List PipelineEdge)
      (input session : String) (w : W)
      → All HasRef agents
      → All (Reaches (index_nodes agents [])) edges
      → (ran : Ran process) → run_graph process name agents edges input session w ≡ some ran
      → AtMost process ran.2
  unfolding run_graph
  graph_fine name agents edges input session w refs known ran =
      at_cycles (cyclic_nodes (peel_fuel agents edges) agents outgoing indegree) (
        walk_roots-Fine nodes (walk process (walk_fuel agents) name nodes outgoing session) indegree
          input agents start
          (λ id content later here.
            walk-Fine name nodes outgoing session sound (walk_fuel agents) id content later here)
          (index_nodes-All agents []))
    where
      nodes : Assoc PipelineAgent
      nodes = index_nodes agents []

      outgoing : Assoc (List PipelineEdge)
      outgoing = outgoing_edges edges []

      indegree : Assoc ℕ
      indegree = count_edges nodes edges (no_edges_in agents [])

      start : Walk process
      start = record { visited = []; nodes = []; world = w }

      roots : Walked process
      roots =
          walk_roots process (walk process (walk_fuel agents) name nodes outgoing session) indegree
            input agents start

      sound : Sound nodes outgoing
      sound = Sound-start agents edges refs known

      at_walk :
          (o : Walked process)
          → Fine o
          → elim o as (λ _. Option (Ran process)) [
            | none ↦ none
            | some (st, err) ↦ some (st.world, st.nodes, err)
          ]
            ≡ some ran
          → AtMost process ran.2
      at_walk none fine h = absurd (cc h)
      at_walk (some (st, err)) fine h =
          subst (λ (x : Ran process). AtMost process x.2)
            (some-injective (st.world, st.nodes, err) ran h) fine

      at_cycles :
          (o : Option (List String))
          → Fine roots
          → elim o as (λ _. Option (Ran process)) [
            | none ↦ none
            | some cyclic ↦ elim cyclic as (λ _. Option (Ran process)) [
              | [] ↦ elim roots as (λ _. Option (Ran process)) [
                | none ↦ none
                | some (st, err) ↦ some (st.world, st.nodes, err)
              ]
              | id ∷ ids ↦ some (w, [], some (has_cycle (id ∷ ids)))
            ]
          ]
            ≡ some ran
          → AtMost process ran.2
      at_cycles none fine h = absurd (cc h)
      at_cycles (some []) fine h = at_walk roots fine h
      at_cycles (some (id ∷ ids)) fine h =
          subst (λ (x : Ran process). AtMost process x.2)
            (some-injective (w, [], some (has_cycle (id ∷ ids))) ran h) tt
