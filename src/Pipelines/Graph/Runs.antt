-- ===== src/Pipelines/Graph/Runs.antt =====
-- internal/engine/pipeline.go: a run of the graph executor as a whole.
use mock_agents.Prelude.{
  ℕ, zero, suc, ◌<◌, Bool, true, false, String, Option, none, some, List, [], ◌∷◌, ◌==◌, Assoc,
  lookup, has, insert, ◌≡◌, refl, sym, ap, ◌∙◌, arith, subst,
}
use mock_agents.Request.{InboundRequest}
use mock_agents.Pipelines.{
  PipelineAgent, PipelineEdge, PipelineError, has_cycle, unknown_node, Response, NodeResult,
  invoke_node, content_of,
}
use mock_agents.Pipelines.Graph.{
  index_nodes, outgoing_edges, no_edges_in, count_edges, edges_of, count_at, left_over,
  cyclic_nodes, Walk, Walked, Ran, is_pruned, follow, mark, append_result, walk, walk_roots,
  walk_fuel, run_graph,
}
use mock_agents.Pipelines.Nodes.{invoke_node-node_id}
use mock_agents.Pipelines.Graph.Peeling.{peel_fuel_lem}
use mock_agents.Pipelines.Graph.Walking.{
  Named, index_nodes-Named, length-index_nodes, unvisited, Grows, unvisited-Grows, insert-Grows,
  unvisited-mark, NoRepeat, Seen, Seen-Grows, ran-Seen, unvisited_start,
}

pub on_test :
    {A : Type 0} (P : A → Type 0) (b : Bool) (x y : A)
    → P x
    → P y
    → P (elim b as (λ _. A) [ true ↦ x | false ↦ y ])
on_test P true x y p q = p
on_test P false x y p q = q

module _ {R E W : Type 0} (process : InboundRequest → W → W × Option (Response R) × Option E) where
  abbrev Clean : Walk process → Type 0
  Clean st = Seen st.visited st.nodes × NoRepeat st.nodes

  -- The call of the walk ends; it forgets no visit, and runs no node that was visited.
  abbrev IsDone : Walk process → Walked process → Type 0
  IsDone st none = ⊥
  IsDone st (some out) = Grows st.visited out.0.visited × (Clean st → Clean out.0)

  abbrev Room : ℕ → Assoc PipelineAgent → Walk process → Type 0
  Room n nodes st = unvisited nodes st.visited < n

  -- After one call, the next.
  next-IsDone :
      (n : ℕ) (nodes : Assoc PipelineAgent) (st : Walk process) (o : Walked process)
      (next : Walk process → Walked process)
      → Room n nodes st
      → ((later : Walk process) → Room n nodes later → IsDone later (next later))
      → IsDone st o
      → IsDone st (elim o as (λ _. Walked process) [
        | none ↦ none
        | some (later, some err) ↦ some (later, some err)
        | some (later, none) ↦ next later
      ])
  next-IsDone n nodes st none next room rest done = done
  next-IsDone n nodes st (some (later, some err)) next room rest done = done
  next-IsDone n nodes st (some (later, none)) next room rest done =
      after_both (next later)
        (rest later (omega (arith, room, unvisited-Grows nodes st.visited later.visited done.0)))
    where
      after_both : (o : Walked process) → IsDone later o → IsDone st o
      after_both none h = h
      after_both (some out) h = ((λ k seen. h.0 k (done.0 k seen)), (λ clean. h.1 (done.1 clean)))

  follow-IsDone :
      (n : ℕ) (nodes : Assoc PipelineAgent) (go : String → String → Walk process → Walked process)
      (content : String) (edges : List PipelineEdge) (st : Walk process)
      → ((id input : String) (later : Walk process)
          → Room n nodes later
          → IsDone later (go id input later))
      → Room n nodes st
      → IsDone st (follow process go content edges st)
  unfolding follow
  follow-IsDone n nodes go content [] st called room = ((λ k seen. seen), (λ clean. clean))
  follow-IsDone n nodes go content (e ∷ rest) st called room =
      on_test (λ o. IsDone st o) (is_pruned process content e) _ _
        (follow-IsDone n nodes go content rest st called room)
        (next-IsDone n nodes st (go e.to content st) (follow process go content rest) room
          (λ later more. follow-IsDone n nodes go content rest later called more)
          (called e.to content st room))

  walk_roots-IsDone :
      (n : ℕ) (nodes : Assoc PipelineAgent) (go : String → String → Walk process → Walked process)
      (indegree : Assoc ℕ) (input : String) (agents : List PipelineAgent) (st : Walk process)
      → ((id content : String) (later : Walk process)
          → Room n nodes later
          → IsDone later (go id content later))
      → Room n nodes st
      → IsDone st (walk_roots process go indegree input agents st)
  unfolding walk_roots
  walk_roots-IsDone n nodes go indegree input [] st called room =
      ((λ k seen. seen), (λ clean. clean))
  walk_roots-IsDone n nodes go indegree input (a ∷ rest) st called room =
      on_test (λ o. IsDone st o) (count_at a.id indegree == 0) _ _
        (next-IsDone n nodes st (go a.id input st) (walk_roots process go indegree input rest) room
          (λ later more. walk_roots-IsDone n nodes go indegree input rest later called more)
          (called a.id input st room))
        (walk_roots-IsDone n nodes go indegree input rest st called room)

  step-IsDone :
      (name : String) (nodes : Assoc PipelineAgent) (outgoing : Assoc (List PipelineEdge))
      (session id input : String) (st : Walk process) (fuel : ℕ)
      → Named nodes
      → ((edge_id content : String) (later : Walk process)
          → Room fuel nodes later
          → IsDone later (walk process fuel name nodes outgoing session edge_id content later))
      → Room (suc fuel) nodes st
      → (has id st.visited ≡ false)
      → (node : PipelineAgent) → lookup id nodes ≡ some node
      → (o : Option (PipelineError E))
      → let out = invoke_node process name node input session st.world in
        let ran = append_result process out.1 out.0 (mark process id st) in
        IsDone st (elim o as (λ _. Walked process) [
          | some err ↦ some (ran, some err)
          | none ↦
              follow process
                (walk process fuel name nodes outgoing session)
                (content_of out.1)
                (edges_of id outgoing)
                ran
        ])
  step-IsDone name nodes outgoing session id input st fuel named called room fresh node found o =
      finish o _ (
        follow-IsDone fuel nodes (walk process fuel name nodes outgoing session) (content_of out.1)
          (edges_of id outgoing) ran called
          (omega (arith, room, unvisited-mark nodes st.visited id node found fresh)))
    where
      out : W × NodeResult R × Option (PipelineError E)
      out = invoke_node process name node input session st.world

      ran : Walk process
      ran = append_result process out.1 out.0 (mark process id st)

      same_id : out.1.node_id ≡ id
      same_id = invoke_node-node_id process name node input session st.world ∙ named id node found

      clean_ran : Clean st → Clean ran
      clean_ran clean =
          subst (λ k. Seen (insert k true st.visited) ran.nodes × NoRepeat ran.nodes) same_id
            (ran-Seen st.visited st.nodes out.1 clean.0 (ap (λ k. has k st.visited) same_id ∙ fresh)
              clean.1)

      compose : (w : Walked process) → IsDone ran w → IsDone st w
      compose none h = h
      compose (some later) h =
          ((λ k seen. h.0 k (insert-Grows id st.visited k seen)), (λ clean. h.1 (clean_ran clean)))

      finish :
          (e : Option (PipelineError E)) (w : Walked process)
          → IsDone ran w
          → IsDone st
              (elim e as (λ _. Walked process) [ some err ↦ some (ran, some err) | none ↦ w ])
      finish (some err) w h = (insert-Grows id st.visited, clean_ran)
      finish none w h = compose w h

  -- The tests of the walk, before it runs a node.
  visit :
      (name : String) (nodes : Assoc PipelineAgent) (outgoing : Assoc (List PipelineEdge))
      (session id input : String) (st : Walk process) (fuel : ℕ)
      → Named nodes
      → ((edge_id content : String) (later : Walk process)
          → Room fuel nodes later
          → IsDone later (walk process fuel name nodes outgoing session edge_id content later))
      → Room (suc fuel) nodes st
      → (seen : Bool) → has id st.visited ≡ seen
      → (found : Option PipelineAgent) → lookup id nodes ≡ found
      → IsDone st (elim seen as (λ _. Walked process) [
        | true ↦ some (st, none)
        | false ↦ elim found as (λ _. Walked process) [
          | none ↦ some (mark process id st, some (unknown_node name id))
          | some node ↦
              let out = invoke_node process name node input session st.world in
              let ran = append_result process out.1 out.0 (mark process id st) in
              (elim out.2 as (λ _. Walked process) [
                | some err ↦ some (ran, some err)
                | none ↦
                    follow process
                      (walk process fuel name nodes outgoing session)
                      (content_of out.1)
                      (edges_of id outgoing)
                      ran
              ])
        ]
      ])
  visit name nodes outgoing session id input st fuel named called room true h found k =
      ((λ x seen. seen), (λ clean. clean))
  visit name nodes outgoing session id input st fuel named called room false h none k = (
    insert-Grows id st.visited,
    (λ clean. (
      Seen-Grows st.visited (insert id true st.visited) st.nodes (insert-Grows id st.visited)
          clean.0,
      clean.1,
    )),
  )
  visit name nodes outgoing session id input st fuel named called room false h (some node) k =
      step-IsDone name nodes outgoing session id input st fuel named called room h node k
        (invoke_node process name node input session st.world).2

  walk-IsDone :
      (name : String) (nodes : Assoc PipelineAgent) (outgoing : Assoc (List PipelineEdge))
      (session : String)
      → Named nodes
      → (fuel : ℕ) (id input : String) (st : Walk process) → Room fuel nodes st
      → IsDone st (walk process fuel name nodes outgoing session id input st)
  unfolding walk
  walk-IsDone name nodes outgoing session named zero id input st room = absurd (omega (arith, room))
  walk-IsDone name nodes outgoing session named (suc fuel) id input st room =
      visit name nodes outgoing session id input st fuel named
        (λ edge_id content later more.
          walk-IsDone name nodes outgoing session named fuel edge_id content later more)
        room (has id st.visited) refl (lookup id nodes) refl

  no_names : Named []
  unfolding lookup
  no_names id node h = absurd (cc h)

  abbrev Ends : Option (Ran process) → Type 0
  Ends o = (ran : Ran process) × (o ≡ some ran) × NoRepeat ran.1

  abbrev start : W → Walk process
  start w = record { visited = []; nodes = []; world = w }

  walked-Ends :
      (w : W) (o : Walked process)
      → IsDone (start w) o
      → Ends (elim o as (λ _. Option (Ran process)) [
        | none ↦ none
        | some (st, err) ↦ some (st.world, st.nodes, err)
      ])
  walked-Ends w none done = absurd done
  walked-Ends w (some (st, err)) done = ((st.world, st.nodes, err), refl, (done.1 (tt, tt)).1)

  checked-Ends :
      (w : W) (cyclic : List String) (o : Option (Ran process))
      → Ends o
      → Ends (elim cyclic as (λ _. Option (Ran process)) [
        | [] ↦ o
        | id ∷ ids ↦ some (w, [], some (has_cycle (id ∷ ids)))
      ])
  checked-Ends w [] o ends = ends
  checked-Ends w (id ∷ ids) o ends = ((w, [], some (has_cycle (id ∷ ids))), refl, tt)

  -- A graph run ends, on the fuel that it gets, for every definition, engine and input: it has a
  -- result, whether with an error or not; and no node is run twice in it.
  pub run_graph_ends :
      (name : String) (agents : List PipelineAgent) (edges : List PipelineEdge)
      (input session : String) (w : W)
      → (ran : Ran process) × (run_graph process name agents edges input session w ≡ some ran)
        × NoRepeat ran.1
  unfolding run_graph cyclic_nodes
  run_graph_ends name agents edges input session w =
      let nodes = index_nodes agents [] in
      let outgoing = outgoing_edges edges [] in
      let indegree = count_edges nodes edges (no_edges_in agents []) in
      let peeled = peel_fuel_lem agents edges nodes outgoing in
      let roots =
        walk_roots process (walk process (walk_fuel agents) name nodes outgoing session) indegree
          input agents (start w) in
      let empty : Named [] = no_names in
      let done =
        walk_roots-IsDone (walk_fuel agents) nodes
          (walk process (walk_fuel agents) name nodes outgoing session) indegree input agents
          (start w)
          (λ id content later more.
            walk-IsDone name nodes outgoing session (index_nodes-Named agents [] empty)
              (walk_fuel agents) id content later more)
          (omega (arith, unvisited_start nodes, length-index_nodes agents [])) in
      subst
        (λ p.
          Ends
            (elim (elim p as (λ _. Option (List String)) [
              | none ↦ none
              | some rest ↦ some (left_over agents rest)
            ])
              as (λ _. Option (Ran process)) [
                | none ↦ none
                | some cyclic ↦ elim cyclic as (λ _. Option (Ran process)) [
                  | [] ↦ elim roots as (λ _. Option (Ran process)) [
                    | none ↦ none
                    | some (st, err) ↦ some (st.world, st.nodes, err)
                  ]
                  | id ∷ ids ↦ some (w, [], some (has_cycle (id ∷ ids)))
                ]
              ]))
        (sym peeled.1) (checked-Ends w (left_over agents peeled.0) _ (walked-Ends w roots done))
