-- ===== src/Pipelines/Validator/Errors.antt =====
-- internal/engine/pipeline.go: the errors of the sequential and the parallel executor, where every node
-- has an agent.
use mock_agents.Prelude.{
  ℕ, zero, suc, String, Option, none, some, List, [], ◌∷◌, str_eq, get_elem?, set_at, All, ◌≡◌,
  refl, sym, ◌∙◌, by_test, subst, some-injective,
}
use mock_agents.Request.{InboundRequest}
use mock_agents.Pipelines.{
  PipelineAgent, PipelineError, engine_error, no_response, has_cycle, nil_definition, no_agents,
  unknown_topology, unknown_node, missing_ref, Response, NodeResult, Slot, node_error, node_request,
  invoke_node, content_of, run_sequential, run_goroutines, empty_slots, join, run_parallel,
}
use mock_agents.Pipelines.Validator.Rules.{HasRef}

module _ {R E W : Type 0} (process : InboundRequest → W → W × Option (Response R) × Option E) where
  -- An error of the engine's call, or the report of a cycle.
  abbrev pub IsRuntime : PipelineError E → Type 0
  IsRuntime (engine_error e) = Unit
  IsRuntime (no_response name id) = Unit
  IsRuntime (has_cycle ids) = Unit
  IsRuntime nil_definition = ⊥
  IsRuntime no_agents = ⊥
  IsRuntime (unknown_topology t) = ⊥
  IsRuntime (unknown_node name id) = ⊥
  IsRuntime (missing_ref name id) = ⊥

  abbrev pub AtMost : Option (PipelineError E) → Type 0
  AtMost none = Unit
  AtMost (some e) = IsRuntime e

  node_error-AtMost :
      (name id : String) (resp : Option (Response R)) (err : Option E)
      → AtMost (node_error process name id resp err)
  node_error-AtMost name id resp (some e) = tt
  node_error-AtMost name id none none = tt
  node_error-AtMost name id (some r) none = tt

  pub invoke_node-AtMost :
      (name : String) (node : PipelineAgent) (input session : String) (w : W)
      → HasRef node
      → AtMost (invoke_node process name node input session w).2
  unfolding invoke_node
  invoke_node-AtMost name node input session w ref =
      by_test (λ (x : W × NodeResult R × Option (PipelineError E)). AtMost x.2) (str_eq node.ref "")
        _ _ (λ empty. absurd (cc (sym ref ∙ empty)))
        (λ _.
          let out = process (node_request process name node input session) w in
          node_error-AtMost name node.id out.1 out.2)

  pub run_sequential-AtMost :
      (name : String) (agents : List PipelineAgent) (input session : String) (w : W)
      → All HasRef agents
      → AtMost (run_sequential process name agents input session w).2
  unfolding run_sequential
  run_sequential-AtMost name [] input session w refs = tt
  run_sequential-AtMost name (node ∷ rest) input session w refs =
      let out = invoke_node process name node input session w in
      at_error out.2 (invoke_node-AtMost name node input session w refs.0)
        (run_sequential-AtMost name rest (content_of out.1) session out.0 refs.1)
    where
      out : W × NodeResult R × Option (PipelineError E)
      out = invoke_node process name node input session w

      later : W × List (NodeResult R) × Option (PipelineError E)
      later = run_sequential process name rest (content_of out.1) session out.0

      at_error :
          (o : Option (PipelineError E))
          → AtMost o
          → AtMost later.2
          → AtMost
              (elim o as (λ _. W × List (NodeResult R) × Option (PipelineError E)) [
                | some e ↦ (out.0, out.1 ∷ [], some e)
                | none ↦ (later.0, out.1 ∷ later.1, later.2)
              ]).2
      at_error none h k = k
      at_error (some e) h k = h

  -- The slots of a parallel run.
  abbrev SlotAtMost : Slot process → Type 0
  SlotAtMost none = Unit
  SlotAtMost (some filled) = AtMost filled.1

  set_at-All :
      (slots : List (Slot process)) (i : ℕ) (s : Slot process)
      → SlotAtMost s
      → All SlotAtMost slots
      → All SlotAtMost (set_at slots i s)
  set_at-All [] i s h all = tt
  set_at-All (t ∷ slots) zero s h all = (h, all.1)
  set_at-All (t ∷ slots) (suc i) s h all = (all.0, set_at-All slots i s h all.1)

  elem-All :
      (agents : List PipelineAgent) (i : ℕ) (a : PipelineAgent)
      → All HasRef agents
      → get_elem? agents i ≡ some a
      → HasRef a
  elem-All [] i a refs h = absurd (cc h)
  elem-All (b ∷ agents) zero a refs h = subst (λ x. HasRef x) (some-injective b a h) refs.0
  elem-All (b ∷ agents) (suc i) a refs h = elem-All agents i a refs.1 h

  run_goroutines-All :
      (order : List ℕ) (name : String) (agents : List PipelineAgent) (input session : String)
      (s : W × List (Slot process))
      → All HasRef agents
      → All SlotAtMost s.1
      → All SlotAtMost (run_goroutines process order name agents input session s).1
  unfolding run_goroutines
  run_goroutines-All [] name agents input session s refs all = all
  run_goroutines-All (i ∷ order) name agents input session s refs all =
      run_goroutines-All order name agents input session _ refs (at_agent (get_elem? agents i) refl)
    where
      at_agent :
          (o : Option PipelineAgent)
          → get_elem? agents i ≡ o
          → All SlotAtMost
              (elim o as (λ _. W × List (Slot process)) [
                | none ↦ s
                | some node ↦
                    let out = invoke_node process name node input session s.0 in
                    (out.0, set_at s.1 i (some (out.1, out.2)))
              ]).1
      at_agent none h = all
      at_agent (some node) h =
          let out = invoke_node process name node input session s.0 in
          set_at-All s.1 i (some (out.1, out.2))
            (invoke_node-AtMost name node input session s.0 (elem-All agents i node refs h)) all

  empty_slots-All : (agents : List PipelineAgent) → All SlotAtMost (empty_slots process agents)
  unfolding empty_slots
  empty_slots-All [] = tt
  empty_slots-All (a ∷ agents) = (tt, empty_slots-All agents)

  join-All :
      (slots : List (Slot process)) → All SlotAtMost slots → All IsRuntime (join process slots)
  unfolding join
  join-All [] all = tt
  join-All (none ∷ rest) all = join-All rest all.1
  join-All (some (nr, none) ∷ rest) all = join-All rest all.1
  join-All (some (nr, some e) ∷ rest) all = (all.0, join-All rest all.1)

  pub run_parallel-All :
      (order : List ℕ) (name : String) (agents : List PipelineAgent) (input session : String)
      (w : W)
      → All HasRef agents
      → All IsRuntime (run_parallel process order name agents input session w).2
  unfolding run_parallel
  run_parallel-All order name agents input session w refs =
      join-All
        (run_goroutines process order name agents input session (w, empty_slots process agents)).1
        (run_goroutines-All order name agents input session (w, empty_slots process agents) refs
          (empty_slots-All agents))
