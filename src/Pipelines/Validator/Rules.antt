-- ===== src/Pipelines/Validator/Rules.antt =====
-- internal/config/pipeline_validator.go: what a document without issues has.
use mock_agents.Prelude.{
  ℕ, suc, Bool, true, false, not, ◌&&◌, ◌||◌, String, List, [], ◌∷◌, ◌++◌, if◌then◌else◌, str_eq,
  Assoc, has, insert, length, ◌==◌, All, ◌≡◌, refl, sym, ap, ◌∙◌, by_test, has-insert, str_eq→eq,
  str_eq_refl, arith,
}
use mock_agents.Pipelines.{
  topology_parallel, topology_graph, PipelineAgent, PipelineEdge, PipelineDefinition,
}
use mock_agents.Pipelines.Graph.{index_nodes}
use mock_agents.Pipelines.Run.{is_runnable, is_sequential}
use mock_agents.Pipelines.Validator.{
  Issue, when_issue, is_listed, valid_pipeline_topologies, topology_issues, agent_issues, next_seen,
  check_agents, from_issues, to_issues, edge_issues, duplicate_issues, next_edges, check_edges,
  honor_issues, validate_pipeline_spec, no_agents_declared, invalid_topology, missing_agent_ref,
  unknown_to,
}

no_issues : (xs ys : List Issue) → xs ++ ys ≡ [] → (xs ≡ []) × (ys ≡ [])
no_issues [] ys h = (refl, h)
no_issues (x ∷ xs) ys h = absurd (cc h)

no_when_issue : (b : Bool) (x : Issue) → when_issue b x ≡ [] → b ≡ false
no_when_issue true x h = absurd (cc h)
no_when_issue false x h = refl

not-false : (b : Bool) → not b ≡ false → b ≡ true
not-false true h = refl
not-false false h = absurd (cc h)

abbrev pub HasRef : PipelineAgent → Type 0
HasRef a = str_eq a.ref "" ≡ false

agent_issues-HasRef :
    (i : ℕ) (a : PipelineAgent) (seen : Assoc ℕ) → agent_issues i a seen ≡ [] → HasRef a
agent_issues-HasRef i a seen =
    by_test (λ xs. xs ≡ [] → HasRef a) (str_eq a.id "") _ _ (λ _ h. absurd (cc h))
      (λ _ h.
        no_when_issue (str_eq a.ref "") (missing_agent_ref i)
          (no_issues (when_issue (str_eq a.ref "") (missing_agent_ref i)) _ h).0)

pub check_agents-HasRef :
    (i : ℕ) (agents : List PipelineAgent) (seen : Assoc ℕ)
    → (check_agents i agents seen).0 ≡ []
    → All HasRef agents
unfolding check_agents
check_agents-HasRef i [] seen h = tt
check_agents-HasRef i (a ∷ rest) seen h =
    let both =
      no_issues (agent_issues i a seen) (check_agents (suc i) rest (next_seen i a seen)).0 h in
    (
      agent_issues-HasRef i a seen both.0,
      check_agents-HasRef (suc i) rest (next_seen i a seen) both.1,
    )

-- The ids that the validator knows are ids of nodes.
next_seen-known :
    (i : ℕ) (a : PipelineAgent) (seen : Assoc ℕ) (nodes : Assoc PipelineAgent)
    → has a.id nodes ≡ true
    → ((k : String) → has k seen ≡ true → has k nodes ≡ true)
    → (k : String) → has k (next_seen i a seen) ≡ true
    → has k nodes ≡ true
next_seen-known i a seen nodes own known k =
    by_test (λ (t : Assoc ℕ). has k t ≡ true → has k nodes ≡ true) (str_eq a.id "") seen _
      (λ _. known k)
      (λ _.
        by_test (λ (t : Assoc ℕ). has k t ≡ true → has k nodes ≡ true) (has a.id seen) seen
          (insert a.id i seen) (λ _. known k)
          (λ _ h.
            by_test (λ b. b ≡ true → has k nodes ≡ true) (str_eq a.id k) true (has k seen)
              (λ same _. ap (λ j. has j nodes) (sym (str_eq→eq a.id k same)) ∙ own) (λ _. known k)
              (sym (has-insert a.id k i seen) ∙ h)))

check_agents-known :
    (i : ℕ) (agents : List PipelineAgent) (seen : Assoc ℕ) (nodes : Assoc PipelineAgent)
    → All (λ (a : PipelineAgent). has a.id nodes ≡ true) agents
    → ((k : String) → has k seen ≡ true → has k nodes ≡ true)
    → (k : String) → has k (check_agents i agents seen).1 ≡ true
    → has k nodes ≡ true
unfolding check_agents
check_agents-known i [] seen nodes all known = known
check_agents-known i (a ∷ rest) seen nodes all known =
    check_agents-known (suc i) rest (next_seen i a seen) nodes all.1
      (next_seen-known i a seen nodes all.0 known)

index_nodes-keeps :
    (agents : List PipelineAgent) (nodes : Assoc PipelineAgent) (k : String)
    → has k nodes ≡ true
    → has k (index_nodes agents nodes) ≡ true
unfolding index_nodes
index_nodes-keeps [] nodes k h = h
index_nodes-keeps (a ∷ rest) nodes k h = index_nodes-keeps rest (insert a.id a nodes) k (
    has-insert a.id k a nodes
    ∙ by_test (λ b. b ≡ true) (str_eq a.id k) true (has k nodes) (λ _. refl) (λ _. h))

pub index_nodes-All :
    (agents : List PipelineAgent) (nodes : Assoc PipelineAgent)
    → All (λ (a : PipelineAgent). has a.id (index_nodes agents nodes) ≡ true) agents
unfolding index_nodes
index_nodes-All [] nodes = tt
index_nodes-All (a ∷ rest) nodes = (
  index_nodes-keeps rest (insert a.id a nodes) a.id (
      has-insert a.id a.id a nodes
      ∙ ap (λ b. if b then true else has a.id nodes) (str_eq_refl a.id)),
  index_nodes-All rest (insert a.id a nodes),
)

-- An edge to a node of the pipeline.
abbrev pub Reaches : Assoc PipelineAgent → PipelineEdge → Type 0
Reaches nodes e = has e.to nodes ≡ true

to_issues-known :
    (i : ℕ) (seen : Assoc ℕ) (e : PipelineEdge) → to_issues i seen e ≡ [] → has e.to seen ≡ true
to_issues-known i seen e =
    by_test (λ xs. xs ≡ [] → has e.to seen ≡ true) (str_eq e.to "") _ _ (λ _ h. absurd (cc h))
      (λ _ h. not-false (has e.to seen) (no_when_issue (not (has e.to seen)) (unknown_to i e.to) h))

check_edges-Reaches :
    (trim_space : String → String) (i : ℕ) (seen : Assoc ℕ) (nodes : Assoc PipelineAgent)
    (edges : List PipelineEdge) (seen_edges : List (PipelineEdge × ℕ))
    → ((k : String) → has k seen ≡ true → has k nodes ≡ true)
    → check_edges trim_space i seen edges seen_edges ≡ []
    → All (Reaches nodes) edges
unfolding check_edges
check_edges-Reaches trim_space i seen nodes [] seen_edges known h = tt
check_edges-Reaches trim_space i seen nodes (e ∷ rest) seen_edges known h =
    let later = check_edges trim_space (suc i) seen rest (next_edges i e seen_edges) in
    let mine =
      no_issues (edge_issues trim_space i seen e) (duplicate_issues i e seen_edges ++ later) h in
    let others = no_issues (duplicate_issues i e seen_edges) later mine.1 in
    let ends = no_issues (from_issues i seen e) _ mine.0 in
    (
      known e.to (to_issues-known i seen e (no_issues (to_issues i seen e) _ ends.1).0),
      check_edges-Reaches trim_space (suc i) seen nodes rest (next_edges i e seen_edges) known
          others.1,
    )

topology_issues-known :
    (topology : String)
    → topology_issues topology ≡ []
    → (is_sequential topology
        || (str_eq topology topology_parallel || str_eq topology topology_graph))
      ≡ true
unfolding topology_issues is_listed
topology_issues-known topology =
    by_test
      (λ xs.
        xs ≡ []
        → (is_sequential topology
            || (str_eq topology topology_parallel || str_eq topology topology_graph))
          ≡ true)
      (str_eq topology "") _ _ (λ _ h. absurd (cc h))
      (λ _ h.
        let listed = not-false (is_listed topology valid_pipeline_topologies) (
          no_when_issue (not (is_listed topology valid_pipeline_topologies))
            (invalid_topology topology) h) in
        ground (arith, listed))

-- What the executor relies on in a document without issues.
pub validate_pipeline_spec-rules :
    (trim_space : String → String) (def : PipelineDefinition)
    → validate_pipeline_spec trim_space def.spec ≡ []
    → (is_runnable def ≡ true)
      × All HasRef def.spec.agents
      × All (Reaches (index_nodes def.spec.agents [])) def.spec.edges
unfolding validate_pipeline_spec has
validate_pipeline_spec-rules trim_space def h =
    let spec = def.spec in
    let agents = check_agents 0 spec.agents [] in
    let first = no_issues (topology_issues spec.topology) _ h in
    let second = no_issues (when_issue (length spec.agents == 0) no_agents_declared) _ first.1 in
    let third = no_issues agents.0 _ second.1 in
    let fourth = no_issues (honor_issues spec) _ third.1 in
    (
      ap
            (λ b.
              not b
              && (is_sequential spec.topology
                  || (str_eq spec.topology topology_parallel
                      || str_eq spec.topology topology_graph)))
            (no_when_issue (length spec.agents == 0) no_agents_declared second.0)
          ∙ topology_issues-known spec.topology first.0,
      check_agents-HasRef 0 spec.agents [] third.0,
      check_edges-Reaches trim_space 0 agents.1 (index_nodes spec.agents []) spec.edges []
          (check_agents-known 0 spec.agents [] (index_nodes spec.agents [])
            (index_nodes-All spec.agents []) (λ k nowhere. absurd (cc nowhere)))
          fourth.1,
    )
