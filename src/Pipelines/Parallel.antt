-- ===== src/Pipelines/Parallel.antt =====
-- internal/engine/pipeline.go: whatever the order of the goroutines, runParallel reports every node.
use mock_agents.Prelude.{
  ℕ, zero, suc, ◌<◌, Bool, true, false, String, Option, none, some, List, [], ◌∷◌, map, length,
  get_elem?, set_at, ◌≡◌, refl, sym, ap, ◌∙◌, ◌⊎◌, inl, inr, In, arith, some-injective, subst,
}
use mock_agents.Request.{InboundRequest}
use mock_agents.Pipelines.{
  PipelineAgent, PipelineError, Response, NodeResult, Slot, invoke_node, run_goroutines,
  empty_slots, present, run_parallel,
}
use mock_agents.Pipelines.Nodes.{invoke_node-node_id}

module _ {R E W : Type 0} (process : InboundRequest → W → W × Option (Response R) × Option E) where
  abbrev SlotFits : PipelineAgent → Slot process → Type 0
  SlotFits a none = Unit
  SlotFits a (some filled) = filled.0.node_id ≡ a.id

  -- What is in a slot is of the agent at its place.
  abbrev Fits : List PipelineAgent → List (Slot process) → Type 0
  Fits [] [] = Unit
  Fits [] (s ∷ slots) = ⊥
  Fits (a ∷ agents) [] = ⊥
  Fits (a ∷ agents) (s ∷ slots) = SlotFits a s × Fits agents slots

  abbrev is_filled : Slot process → Bool
  is_filled none = false
  is_filled (some filled) = true

  abbrev filled_at : ℕ → List (Slot process) → Bool
  filled_at i [] = false
  filled_at zero (s ∷ slots) = is_filled s
  filled_at (suc i) (s ∷ slots) = filled_at i slots

  set_at-Fits :
      (agents : List PipelineAgent) (slots : List (Slot process)) (i : ℕ) (a : PipelineAgent)
      (s : Slot process)
      → get_elem? agents i ≡ some a
      → SlotFits a s
      → Fits agents slots
      → Fits agents (set_at slots i s)
  set_at-Fits [] slots i a s found fit fits = absurd (cc found)
  set_at-Fits (b ∷ agents) [] i a s found fit fits = absurd fits
  set_at-Fits (b ∷ agents) (t ∷ slots) zero a s found fit fits =
      (subst (λ x. SlotFits x s) (sym (some-injective b a found)) fit, fits.1)
  set_at-Fits (b ∷ agents) (t ∷ slots) (suc i) a s found fit fits =
      (fits.0, set_at-Fits agents slots i a s found fit fits.1)

  filled_at-set_at :
      (agents : List PipelineAgent) (slots : List (Slot process)) (i : ℕ) (a : PipelineAgent)
      (x : NodeResult R × Option (PipelineError E))
      → get_elem? agents i ≡ some a
      → Fits agents slots
      → filled_at i (set_at slots i (some x)) ≡ true
  filled_at-set_at [] slots i a x found fits = absurd (cc found)
  filled_at-set_at (b ∷ agents) [] i a x found fits = absurd fits
  filled_at-set_at (b ∷ agents) (t ∷ slots) zero a x found fits = refl
  filled_at-set_at (b ∷ agents) (t ∷ slots) (suc i) a x found fits =
      filled_at-set_at agents slots i a x found fits.1

  filled_stays :
      (slots : List (Slot process)) (i j : ℕ) (x : NodeResult R × Option (PipelineError E))
      → filled_at j slots ≡ true
      → filled_at j (set_at slots i (some x)) ≡ true
  filled_stays [] i j x h = h
  filled_stays (t ∷ slots) zero zero x h = refl
  filled_stays (t ∷ slots) zero (suc j) x h = h
  filled_stays (t ∷ slots) (suc i) zero x h = h
  filled_stays (t ∷ slots) (suc i) (suc j) x h = filled_stays slots i j x h

  elem_some :
      (agents : List PipelineAgent) (i : ℕ)
      → i < length agents
      → (a : PipelineAgent) × (get_elem? agents i ≡ some a)
  elem_some [] i h = absurd (omega (arith, h))
  elem_some (a ∷ agents) zero h = (a, refl)
  elem_some (a ∷ agents) (suc i) h = elem_some agents i (omega (arith, h))

  -- One goroutine's effect on the slots.
  abbrev turn :
      String
      → List PipelineAgent
      → String
      → String
      → ℕ
      → W × List (Slot process)
      → W × List (Slot process)
  turn name agents input session i s = elim (get_elem? agents i) [
    | none ↦ s
    | some node ↦
        let out = invoke_node process name node input session s.0 in
        (out.0, set_at s.1 i (some (out.1, out.2)))
  ]

  -- The slot of the goroutine is filled, the others stay as they are.
  turn_lem :
      (name : String) (agents : List PipelineAgent) (input session : String) (i : ℕ)
      (s : W × List (Slot process))
      → Fits agents s.1
      → Fits agents (turn name agents input session i s).1
        × (i < length agents → filled_at i (turn name agents input session i s).1 ≡ true)
        × ((j : ℕ)
            → filled_at j s.1 ≡ true
            → filled_at j (turn name agents input session i s).1 ≡ true)
  turn_lem name agents input session i s fits = at_agent (get_elem? agents i) refl
    where
      at_agent :
          (o : Option PipelineAgent)
          → get_elem? agents i ≡ o
          → let after = elim o as (λ _. W × List (Slot process)) [
            | none ↦ s
            | some node ↦
                let out = invoke_node process name node input session s.0 in
                (out.0, set_at s.1 i (some (out.1, out.2)))
          ] in
            Fits agents after.1
            × (i < length agents → filled_at i after.1 ≡ true)
            × ((j : ℕ) → filled_at j s.1 ≡ true → filled_at j after.1 ≡ true)
      at_agent none h =
          (fits, (λ below. absurd (cc (sym h ∙ (elem_some agents i below).1))), (λ j k. k))
      at_agent (some node) h =
          let out = invoke_node process name node input session s.0 in
          (
            set_at-Fits agents s.1 i node (some (out.1, out.2)) h
                (invoke_node-node_id process name node input session s.0) fits,
            (λ _. filled_at-set_at agents s.1 i node (out.1, out.2) h fits),
            (λ j k. filled_stays s.1 i j (out.1, out.2) k),
          )

  goroutines_fill :
      (order : List ℕ) (name : String) (agents : List PipelineAgent) (input session : String)
      (s : W × List (Slot process))
      → Fits agents s.1
      → Fits agents (run_goroutines process order name agents input session s).1
        × ((j : ℕ)
            → j < length agents
            → In j order ⊎ (filled_at j s.1 ≡ true)
            → filled_at j (run_goroutines process order name agents input session s).1 ≡ true)
  unfolding run_goroutines
  goroutines_fill [] name agents input session s fits =
      (fits, (λ j below h. elim h [ inl nowhere ↦ absurd nowhere | inr filled ↦ filled ]))
  goroutines_fill (i ∷ order) name agents input session s fits =
      let first = turn_lem name agents input session i s fits in
      let later =
        goroutines_fill order name agents input session (turn name agents input session i s)
          first.0 in
      (
        later.0,
        (λ j below h. later.1 j below (elim h [
          | inl (inl here) ↦ inr (
              subst (λ k. filled_at k (turn name agents input session i s).1 ≡ true) (sym here)
                (first.1 (subst (λ k. k < length agents) here below)))
          | inl (inr there) ↦ inl there
          | inr filled ↦ inr (first.2 j filled)
        ])),
      )

  empty_slots-Fits : (agents : List PipelineAgent) → Fits agents (empty_slots process agents)
  unfolding empty_slots
  empty_slots-Fits [] = tt
  empty_slots-Fits (a ∷ agents) = (tt, empty_slots-Fits agents)

  present-Fits :
      (agents : List PipelineAgent) (slots : List (Slot process))
      → Fits agents slots
      → ((j : ℕ) → j < length agents → filled_at j slots ≡ true)
      → map (λ (n : NodeResult R). n.node_id) (present process slots)
        ≡ map (λ (a : PipelineAgent). a.id) agents
  unfolding present
  present-Fits [] [] fits all = refl
  present-Fits [] (s ∷ slots) fits all = absurd fits
  present-Fits (a ∷ agents) [] fits all = absurd fits
  present-Fits (a ∷ agents) (none ∷ slots) fits all = absurd (cc (all 0 (omega arith)))
  present-Fits (a ∷ agents) (some filled ∷ slots) fits all =
      ap (λ k. k ∷ map (λ (n : NodeResult R). n.node_id) (present process slots)) fits.0
      ∙ ap (λ ks. a.id ∷ ks)
          (present-Fits agents slots fits.1 (λ j below. all (suc j) (omega (arith, below))))

  -- In whatever order the goroutines call the engine, once each of them has, a parallel run has one
  -- result for every agent, failed or not, in the order of the definition.
  pub run_parallel_lem :
      (order : List ℕ) (name : String) (agents : List PipelineAgent) (input session : String)
      (w : W)
      → ((i : ℕ) → i < length agents → In i order)
      → map
          (λ (n : NodeResult R). n.node_id)
          (run_parallel process order name agents input session w).1
        ≡ map (λ (a : PipelineAgent). a.id) agents
  unfolding run_parallel
  run_parallel_lem order name agents input session w covers =
      let filled =
        goroutines_fill order name agents input session (w, empty_slots process agents)
          (empty_slots-Fits agents) in
      present-Fits agents
        (run_goroutines process order name agents input session (w, empty_slots process agents)).1
        filled.0 (λ j below. filled.1 j below (inl (covers j below)))
