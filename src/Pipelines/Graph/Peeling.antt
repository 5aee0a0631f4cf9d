-- ===== src/Pipelines/Graph/Peeling.antt =====
-- internal/engine/pipeline.go: the peeling of cyclicNodes ends. Every peeled node leaves the queue,
-- and every node that joins it has had its count go from 1 to 0.
use mock_agents.Prelude.{
  ℕ, zero, suc, ◌+◌, ◌≤◌, Bool, true, false, String, Option, none, some, List, [], ◌∷◌, ◌++◌,
  if◌then◌else◌, ◌==◌, str_eq, Assoc, Entry, lookup, insert, delete, length, total, ℤ, pos, negsuc,
  ◌≡◌, refl, sym, ap, ◌∙◌, inl, inr, arith, by_test, Bool-cases, some-injective, length-append,
}
use mock_agents.Pipelines.{PipelineAgent, PipelineEdge}
use mock_agents.Pipelines.Graph.{
  edges_of, no_edges_in, count_at, is_counted, count_edges, copy_counts, is_zero, decrement,
  start_queue, relax_edge, relax, peel, peel_fuel,
}

abbrev positive : ℤ → ℕ
positive (pos n) = n
positive (negsuc n) = 0

abbrev positives : Assoc ℤ → ℕ
positives t = total (λ (e : Entry ℤ). positive e.val) t

-- What the loop has left to do.
abbrev work : Assoc ℤ × List String → ℕ
work s = length s.1 + positives s.0

positives-insert :
    (k : String) (old v : ℤ) (t : Assoc ℤ)
    → lookup k t ≡ some old
    → positives (insert k v t) + positive old ≡ positives t + positive v
unfolding lookup insert
positives-insert k old v [] h = absurd (cc h)
positives-insert k old v (e ∷ rest) h = elim (Bool-cases (str_eq e.key k)) [
  | inl same ↦
      let value : e.val ≡ old =
        some-injective e.val old
          (sym (ap (λ b. if b then some e.val else lookup k rest) same) ∙ h) in
      ap
        (λ b.
          positives (if b then record { key = k; val = v } ∷ rest else e ∷ insert k v rest)
          + positive old)
        same
      ∙ omega (arith, ap positive value)
  | inr other ↦
      ap
        (λ b.
          positives (if b then record { key = k; val = v } ∷ rest else e ∷ insert k v rest)
          + positive old)
        other
      ∙ omega (
        arith,
        positives-insert k old v rest
            (sym (ap (λ b. if b then some e.val else lookup k rest) other) ∙ h),
      )
]

positives-delete : (k : String) (t : Assoc ℤ) → positives (delete k t) ≤ positives t
unfolding delete
positives-delete k [] = ground arith
positives-delete k (e ∷ rest) =
    by_test (λ t. positives t ≤ positive e.val + positives rest) (str_eq e.key k) _ _
      (λ _. omega (arith, positives-delete k rest)) (λ _. omega (arith, positives-delete k rest))

decrement-positive :
    (d : ℤ) → (if is_zero (decrement d) then 1 else 0) + positive (decrement d) ≤ positive d
decrement-positive (pos zero) = ground arith
decrement-positive (pos (suc zero)) = ground arith
decrement-positive (pos (suc (suc n))) = ground arith
decrement-positive (negsuc n) = ground arith

queued_length :
    (b : Bool) (queue : List String) (id : String)
    → length (if b then queue ++ id ∷ [] else queue) ≡ length queue + (if b then 1 else 0)
queued_length true queue id = length-append queue (id ∷ [])
queued_length false queue id = omega arith

work-relax_edge : (e : PipelineEdge) (s : Assoc ℤ × List String) → work (relax_edge e s) ≤ work s
work-relax_edge e s =
    by_test (λ t. work t ≤ work s) (str_eq e.from e.to) _ _ (λ _. ground arith)
      (λ _. at_count (lookup e.to s.0) refl)
  where
    at_count :
        (o : Option ℤ)
        → lookup e.to s.0 ≡ o
        → work (elim o as (λ _. Assoc ℤ × List String) [
          | none ↦ s
          | some d ↦ (
            insert e.to (decrement d) s.0,
            if is_zero (decrement d) then s.1 ++ e.to ∷ [] else s.1,
          )
        ])
          ≤ work s
    at_count none h = ground arith
    at_count (some d) h = omega (
      arith,
      positives-insert e.to d (decrement d) s.0 h,
      decrement-positive d,
      queued_length (is_zero (decrement d)) s.1 e.to,
    )

work-relax : (edges : List PipelineEdge) (s : Assoc ℤ × List String) → work (relax edges s) ≤ work s
unfolding relax
work-relax [] s = ground arith
work-relax (e ∷ rest) s = omega (arith, work-relax rest (relax_edge e s), work-relax_edge e s)

peel_ends :
    (fuel : ℕ) (outgoing : Assoc (List PipelineEdge)) (s : Assoc ℤ × List String)
    → work s ≤ fuel
    → (rest : Assoc ℤ) × (peel fuel outgoing s ≡ some rest)
unfolding peel
peel_ends fuel outgoing (remaining, []) h = (remaining, refl)
peel_ends zero outgoing (remaining, id ∷ queue) h = absurd (omega (arith, h))
peel_ends (suc fuel) outgoing (remaining, id ∷ queue) h =
    peel_ends fuel outgoing (relax (edges_of id outgoing) (delete id remaining, queue)) (
      omega (
        arith,
        h,
        work-relax (edges_of id outgoing) (delete id remaining, queue),
        positives-delete id remaining,
      ))

-- What there is to do at the start: a node without inbound edges is in the queue.
abbrev weight : ℕ → ℕ
weight n = if n == 0 then 1 else n

abbrev weights : Assoc ℕ → ℕ
weights t = total (λ (e : Entry ℕ). weight e.val) t

start_one :
    (n : ℕ) (k : String) (queue : List String)
    → length (if is_zero (pos n) then k ∷ queue else queue) + n ≡ length queue + weight n
start_one zero k queue = omega arith
start_one (suc n) k queue = ground arith

work-start : (t : Assoc ℕ) → work (copy_counts t, start_queue (copy_counts t)) ≡ weights t
unfolding copy_counts start_queue
work-start [] = omega arith
work-start (e ∷ rest) =
    omega (arith, work-start rest, start_one e.val e.key (start_queue (copy_counts rest)))

abbrev old_weight : Option ℕ → ℕ
old_weight none = 0
old_weight (some n) = weight n

weights-insert :
    (k : String) (v : ℕ) (t : Assoc ℕ)
    → weights (insert k v t) + old_weight (lookup k t) ≡ weights t + weight v
unfolding insert lookup
weights-insert k v [] = omega arith
weights-insert k v (e ∷ rest) = elim (Bool-cases (str_eq e.key k)) [
  | inl same ↦
      ap
        (λ b.
          weights (if b then record { key = k; val = v } ∷ rest else e ∷ insert k v rest)
          + old_weight (if b then some e.val else lookup k rest))
        same
      ∙ omega arith
  | inr other ↦
      ap
        (λ b.
          weights (if b then record { key = k; val = v } ∷ rest else e ∷ insert k v rest)
          + old_weight (if b then some e.val else lookup k rest))
        other
      ∙ omega (arith, weights-insert k v rest)
]

weights-no_edges_in :
    (agents : List PipelineAgent) (t : Assoc ℕ)
    → weights (no_edges_in agents t) ≤ weights t + length agents
unfolding no_edges_in
weights-no_edges_in [] t = omega arith
weights-no_edges_in (n ∷ rest) t =
    omega (arith, weights-no_edges_in rest (insert n.id 0 t), weights-insert n.id 0 t)

weight-count_at :
    (o : Option ℕ) → weight (elim o as (λ _. ℕ) [ none ↦ 0 | some d ↦ d ] + 1) ≤ old_weight o + 1
weight-count_at none = ground arith
weight-count_at (some n) = ground arith

weights-count_edges :
    (nodes : Assoc PipelineAgent) (edges : List PipelineEdge) (t : Assoc ℕ)
    → weights (count_edges nodes edges t) ≤ weights t + length edges
unfolding count_edges
weights-count_edges nodes [] t = omega arith
weights-count_edges nodes (e ∷ rest) t = omega (
  arith,
  weights-count_edges nodes rest
      (if is_counted nodes e then insert e.to (count_at e.to t + 1) t else t),
  by_test (λ x. weights x ≤ weights t + 1) (is_counted nodes e)
      (insert e.to (count_at e.to t + 1) t) t
      (λ _.
        omega (arith, weights-insert e.to (count_at e.to t + 1) t, weight-count_at (lookup e.to t)))
      (λ _. omega arith),
)

-- The peeling of a graph's nodes ends on the fuel that it gets.
pub peel_fuel_lem :
    (agents : List PipelineAgent) (edges : List PipelineEdge) (nodes : Assoc PipelineAgent)
    (outgoing : Assoc (List PipelineEdge))
    → (rest : Assoc ℤ) × (peel (peel_fuel agents edges) outgoing (
      copy_counts (count_edges nodes edges (no_edges_in agents [])),
      start_queue (copy_counts (count_edges nodes edges (no_edges_in agents []))),
    )
        ≡ some rest)
peel_fuel_lem agents edges nodes outgoing =
    let indegree = count_edges nodes edges (no_edges_in agents []) in
    peel_ends (peel_fuel agents edges) outgoing
      (copy_counts indegree, start_queue (copy_counts indegree))
      (omega (
        arith,
        work-start indegree,
        weights-count_edges nodes edges (no_edges_in agents []),
        weights-no_edges_in agents [],
      ))
