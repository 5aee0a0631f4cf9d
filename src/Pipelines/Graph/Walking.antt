-- ===== src/Pipelines/Graph/Walking.antt =====
-- internal/engine/pipeline.go: the walk of runGraph ends, and runs no node twice.
use mock_agents.Prelude.{
  ℕ, suc, ◌+◌, ◌≤◌, ◌<◌, Bool, true, false, String, some, List, [], ◌∷◌, ◌++◌, if◌then◌else◌,
  str_eq, Assoc, Entry, lookup, has, insert, length, total, All, ◌≡◌, refl, sym, ap, ◌∙◌, inl, inr,
  arith, by_test, Bool-cases, some-injective, lookup-insert, has-insert, str_eq→eq, str_eq_refl,
  subst, length-insert,
}
use mock_agents.Pipelines.{PipelineAgent, NodeResult}
use mock_agents.Pipelines.Graph.{index_nodes}

-- Under every id stands a node with that id.
abbrev pub Named : Assoc PipelineAgent → Type 0
Named nodes = (id : String) (node : PipelineAgent) → lookup id nodes ≡ some node → node.id ≡ id

-- What holds of every node under its id holds of what is read.
pub index_nodes-reads :
    (P : String → PipelineAgent → Type 0) (agents : List PipelineAgent)
    (nodes : Assoc PipelineAgent)
    → ((id : String) (node : PipelineAgent) → lookup id nodes ≡ some node → P id node)
    → All (λ (a : PipelineAgent). P a.id a) agents
    → (id : String) (node : PipelineAgent) → lookup id (index_nodes agents nodes) ≡ some node
    → P id node
unfolding index_nodes
index_nodes-reads P [] nodes reads all = reads
index_nodes-reads P (n ∷ rest) nodes reads all =
    index_nodes-reads P rest (insert n.id n nodes) written all.1
  where
    written :
        (id : String) (node : PipelineAgent)
        → lookup id (insert n.id n nodes) ≡ some node
        → P id node
    written id node h = elim (Bool-cases (str_eq n.id id)) [
      | inl same ↦
          let this : n ≡ node = some-injective n node (
            sym
              (lookup-insert n.id id n nodes ∙ ap (λ b. if b then some n else lookup id nodes) same)
            ∙ h) in
          subst (λ k. P k node) (str_eq→eq n.id id same) (subst (λ x. P n.id x) this all.0)
      | inr other ↦ reads id node (
          sym
            (lookup-insert n.id id n nodes ∙ ap (λ b. if b then some n else lookup id nodes) other)
          ∙ h)
    ]

Named-ids : (agents : List PipelineAgent) → All (λ (a : PipelineAgent). a.id ≡ a.id) agents
Named-ids [] = tt
Named-ids (a ∷ rest) = (refl, Named-ids rest)

pub index_nodes-Named :
    (agents : List PipelineAgent) (nodes : Assoc PipelineAgent)
    → Named nodes
    → Named (index_nodes agents nodes)
index_nodes-Named agents nodes named =
    index_nodes-reads (λ id node. node.id ≡ id) agents nodes named (Named-ids agents)

pub length-index_nodes :
    (agents : List PipelineAgent) (nodes : Assoc PipelineAgent)
    → length (index_nodes agents nodes) ≤ length nodes + length agents
unfolding index_nodes
length-index_nodes [] nodes = omega arith
length-index_nodes (n ∷ rest) nodes = omega (
  arith,
  length-index_nodes rest (insert n.id n nodes),
  by_test (λ l. l ≤ suc (length nodes)) (has n.id nodes) (length nodes) (suc (length nodes))
      (λ _. omega arith) (λ _. omega arith),
  length-insert n.id n nodes,
)

-- The nodes that a walk may still run.
abbrev pub unvisited : Assoc PipelineAgent → Assoc Bool → ℕ
unvisited nodes visited =
    total (λ (e : Entry PipelineAgent). if has e.key visited then 0 else 1) nodes

abbrev pub Grows : Assoc Bool → Assoc Bool → Type 0
Grows visited later = (k : String) → has k visited ≡ true → has k later ≡ true

pub unvisited-Grows :
    (nodes : Assoc PipelineAgent) (visited later : Assoc Bool)
    → Grows visited later
    → unvisited nodes later ≤ unvisited nodes visited
unvisited-Grows [] visited later grows = ground arith
unvisited-Grows (e ∷ rest) visited later grows =
    let more = unvisited-Grows rest visited later grows in
    (elim (Bool-cases (has e.key visited)) [
      | inl seen ↦ rw seen (rw (grows e.key seen) (omega (arith, more)))
      | inr fresh ↦ rw fresh (
          by_test (λ n. n + unvisited rest later ≤ 1 + unvisited rest visited) (has e.key later) 0 1
            (λ _. omega (arith, more)) (λ _. omega (arith, more)))
    ])

pub unvisited_start : (nodes : Assoc PipelineAgent) → unvisited nodes [] ≡ length nodes
unfolding has
unvisited_start [] = refl
unvisited_start (e ∷ rest) = omega (arith, unvisited_start rest)

pub insert-Grows : (id : String) (visited : Assoc Bool) → Grows visited (insert id true visited)
insert-Grows id visited k h =
    has-insert id k true visited
    ∙ by_test (λ b. b ≡ true) (str_eq id k) true (has k visited) (λ _. refl) (λ _. h)

pub unvisited-mark :
    (nodes : Assoc PipelineAgent) (visited : Assoc Bool) (id : String) (node : PipelineAgent)
    → lookup id nodes ≡ some node
    → has id visited ≡ false
    → unvisited nodes (insert id true visited) < unvisited nodes visited
unfolding lookup
unvisited-mark [] visited id node found fresh = absurd (cc found)
unvisited-mark (e ∷ rest) visited id node found fresh = elim (Bool-cases (str_eq e.key id)) [
  | inl same ↦
      let now : has e.key (insert id true visited) ≡ true =
        has-insert id e.key true visited
        ∙ ap (λ b. if b then true else has e.key visited)
            (ap (λ k. str_eq id k) (str_eq→eq e.key id same) ∙ str_eq_refl id) in
      let before : has e.key visited ≡ false =
        ap (λ k. has k visited) (str_eq→eq e.key id same) ∙ fresh in
      rw now (
        rw before (
          omega (
            arith,
            unvisited-Grows rest visited (insert id true visited) (insert-Grows id visited),
          )))
  | inr other ↦
      let later =
        unvisited-mark rest visited id node
          (sym (ap (λ b. if b then some e.val else lookup id rest) other) ∙ found) fresh in
      (elim (Bool-cases (has e.key visited)) [
        | inl seen ↦ rw seen (rw (insert-Grows id visited e.key seen) (omega (arith, later)))
        | inr unseen ↦ rw unseen (
            by_test (λ n. n + unvisited rest (insert id true visited) < 1 + unvisited rest visited)
              (has e.key (insert id true visited)) 0 1 (λ _. omega (arith, later))
              (λ _. omega (arith, later)))
      ])
]

module _ {R : Type 0} where
  -- No two of the results are of the same node.
  abbrev pub NoRepeat : List (NodeResult R) → Type 0
  NoRepeat [] = Unit
  NoRepeat (n ∷ rest) =
      All (λ (m : NodeResult R). str_eq n.node_id m.node_id ≡ false) rest × NoRepeat rest

  -- Every result is of a visited node.
  abbrev pub Seen : Assoc Bool → List (NodeResult R) → Type 0
  Seen visited nodes = All (λ (n : NodeResult R). has n.node_id visited ≡ true) nodes

  pub Seen-Grows :
      (visited later : Assoc Bool) (nodes : List (NodeResult R))
      → Grows visited later
      → Seen visited nodes
      → Seen later nodes
  Seen-Grows visited later [] grows seen = tt
  Seen-Grows visited later (n ∷ rest) grows seen =
      (grows n.node_id seen.0, Seen-Grows visited later rest grows seen.1)

  append-All :
      (P : NodeResult R → Type 0) (nodes : List (NodeResult R)) (n : NodeResult R)
      → All P nodes
      → P n
      → All P (nodes ++ n ∷ [])
  append-All P [] n all p = (p, tt)
  append-All P (m ∷ rest) n all p = (all.0, append-All P rest n all.1 p)

  append-NoRepeat :
      (visited : Assoc Bool) (nodes : List (NodeResult R)) (n : NodeResult R)
      → Seen visited nodes
      → has n.node_id visited ≡ false
      → NoRepeat nodes
      → NoRepeat (nodes ++ n ∷ [])
  append-NoRepeat visited [] n seen fresh distinct = (tt, tt)
  append-NoRepeat visited (m ∷ rest) n seen fresh distinct = (
    append-All (λ (x : NodeResult R). str_eq m.node_id x.node_id ≡ false) rest n distinct.0 differs,
    append-NoRepeat visited rest n seen.1 fresh distinct.1,
  )
    where
      differs : str_eq m.node_id n.node_id ≡ false
      differs = elim (Bool-cases (str_eq m.node_id n.node_id)) [
        | inr other ↦ other
        | inl same ↦
            absurd (
              cc
                (sym seen.0 ∙ ap (λ k. has k visited) (str_eq→eq m.node_id n.node_id same) ∙ fresh))
      ]

  -- The step of the walk that runs a node.
  pub ran-Seen :
      (visited : Assoc Bool) (nodes : List (NodeResult R)) (n : NodeResult R)
      → Seen visited nodes
      → has n.node_id visited ≡ false
      → NoRepeat nodes
      → Seen (insert n.node_id true visited) (nodes ++ n ∷ []) × NoRepeat (nodes ++ n ∷ [])
  ran-Seen visited nodes n seen fresh distinct = (
    append-All (λ (x : NodeResult R). has x.node_id (insert n.node_id true visited) ≡ true) nodes n
        (Seen-Grows visited (insert n.node_id true visited) nodes (insert-Grows n.node_id visited)
          seen)
        (has-insert n.node_id n.node_id true visited
          ∙ ap (λ b. if b then true else has n.node_id visited) (str_eq_refl n.node_id)),
    append-NoRepeat visited nodes n seen fresh distinct,
  )
