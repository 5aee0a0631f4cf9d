-- ===== src/Registry/Removal/Effect.antt =====
-- internal/engine/agent_registry.go: what Remove leaves, and when it is an error.
use mock_agents.Prelude.{
  ◌&&◌, String, Option, none, some, [], if◌then◌else◌, str_eq, Assoc, lookup, has, ◌≡◌, refl, ap,
  ◌∙◌, inl, inr, Bool-cases, by_test, absent_lookup,
}
use mock_agents.Registry.{
  AgentDefinition, AgentRegistry, Bucket, remove_loop, remove, rebuild_all, get_owned_for_tenant,
}
use mock_agents.Registry.Buckets.{find}
use mock_agents.Registry.Fresh.{
  Stored, IsIndexed, rebuild_all-agents, rebuild_all-Stored, rebuild_all-Fresh,
}
use mock_agents.Registry.Removal.Loop.{remove_loop-Left, remove_loop-none, remove_loop-some}

module _ (S : Type 0) where
  remove_loop-reads :
      (name : String) (r : AgentRegistry S) (o n : String)
      → Stored S r.agents
      → find o n
          (rebuild_all S
            (remove_loop S name r.agents r []).1
            (remove_loop S name r.agents r []).0).agents
        ≡ (if has o r.agents && str_eq name n then none else find o n r.agents)
  remove_loop-reads name r o n stored =
      let out = remove_loop S name r.agents r [] in
      ap (λ b. find o n b) (rebuild_all-agents S out.1 out.0)
      ∙ (remove_loop-Left S name r.agents r [] stored.0 (λ _ _. refl) stored).2 o n

  pub remove_loop-IsIndexed :
      (name : String) (r : AgentRegistry S)
      → IsIndexed S r
      → IsIndexed S
          (rebuild_all S (remove_loop S name r.agents r []).1 (remove_loop S name r.agents r []).0)
  remove_loop-IsIndexed name r indexed =
      let out = remove_loop S name r.agents r [] in
      let left = remove_loop-Left S name r.agents r [] indexed.0.0 (λ _ _. refl) indexed.0 in
      (
        rebuild_all-Stored S out.1 out.0 left.0,
        (λ model proper.
            rebuild_all-Fresh S out.1 model out.0 left.0 proper
              (left.1 model proper (inr (indexed.1 model proper)))),
      )

  -- A missing tenant has no agents to lose.
  gone_reads :
      (name o n : String) (agents : Assoc (Bucket S))
      → (if has o agents && str_eq name n then none else find o n agents)
        ≡ (if str_eq name n then none else find o n agents)
  unfolding lookup
  gone_reads name o n agents = elim (Bool-cases (has o agents)) [
    | inl here ↦ rw here refl
    | inr absent ↦
        ap (λ b. if b && str_eq name n then none else find o n agents) absent
        ∙ by_test (λ x. find o n agents ≡ x) (str_eq name n) none (find o n agents)
            (λ _.
              ap (λ x. lookup n (elim x as (λ _. Bucket S) [ none ↦ [] | some b ↦ b ]))
                (absent_lookup o agents absent))
            (λ _. refl)
  ]

  -- What a removal by name leaves, if it is not an error.
  abbrev pub Removes : String → AgentRegistry S → Option (AgentRegistry S) → Type 0
  Removes name r none = (o : String) → get_owned_for_tenant S name o r ≡ none
  Removes name r (some later) =
      ((o : String) × (d : AgentDefinition S) × (get_owned_for_tenant S name o r ≡ some d))
      × ((o n : String)
          → get_owned_for_tenant S n o later
            ≡ (if str_eq name n then none else get_owned_for_tenant S n o r))

  pub remove-Removes :
      (name : String) (r : AgentRegistry S) → IsIndexed S r → Removes name r (remove S name r)
  unfolding remove get_owned_for_tenant
  remove-Removes name r indexed =
      by_test (λ x. Removes name r x) (remove_loop S name r.agents r []).2 _ none
        (λ hit. (
          remove_loop-some S name r.agents r [] hit indexed.0.0,
          (λ o n. remove_loop-reads name r o n indexed.0 ∙ gone_reads name o n r.agents),
        ))
        (λ missed o. remove_loop-none S name r.agents r [] missed indexed.0.0 o)
