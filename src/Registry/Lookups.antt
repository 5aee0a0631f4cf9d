-- ===== src/Registry/Lookups.antt =====
-- internal/engine/agent_registry.go: the merged view of a tenant.
use mock_agents.Prelude.{
  String, Option, none, some, [], ◌∷◌, if◌then◌else◌, str_eq, lookup, insert, ◌≡◌, refl, sym, ap,
  ◌∙◌, inl, inr, Bool-cases, Distinct, str_eq→eq, lookup-insert, absent_lookup,
}
use mock_agents.Registry.{
  AgentDefinition, AgentRegistry, Bucket, bucket_of, or_else, get_for_tenant, merge_into,
  merged_for_tenant,
}
use mock_agents.Registry.Buckets.{find}
use mock_agents.Registry.Fresh.{IsIndexed}

module _ (S : Type 0) where
  lookup-merge_into :
      (n : String) (b m : Bucket S)
      → Distinct b
      → lookup n (merge_into S b m) ≡ or_else (lookup n b) (lookup n m)
  unfolding merge_into lookup
  lookup-merge_into n [] m distinct = refl
  lookup-merge_into n (e ∷ rest) m distinct =
      lookup-merge_into n rest (insert e.key e.val m) distinct.1
      ∙ ap (λ x. or_else (lookup n rest) x) (lookup-insert e.key n e.val m)
      ∙ (elim (Bool-cases (str_eq e.key n)) [
        | inl same ↦
            ap (λ x. or_else x (if str_eq e.key n then some e.val else lookup n m))
              (ap (λ k. lookup k rest) (sym (str_eq→eq e.key n same))
                ∙ absent_lookup e.key rest distinct.0)
            ∙ ap (λ b. if b then some e.val else lookup n m) same
            ∙ ap (λ b. or_else (if b then some e.val else lookup n rest) (lookup n m)) (sym same)
        | inr other ↦
            ap (λ b. or_else (lookup n rest) (if b then some e.val else lookup n m)) other
            ∙ ap (λ b. or_else (if b then some e.val else lookup n rest) (lookup n m)) (sym other)
      ])

  or_else-none : (o : Option (AgentDefinition S)) → or_else o none ≡ o
  or_else-none none = refl
  or_else-none (some d) = refl

  -- In an indexed registry, the merged view of a tenant has, under every name, what a lookup of
  -- that name for the tenant gives.
  pub merged_for_tenant-get_for_tenant :
      (r : AgentRegistry S) (tenant name : String)
      → IsIndexed S r
      → lookup name (merged_for_tenant S tenant r) ≡ get_for_tenant S name tenant r
  unfolding merged_for_tenant get_for_tenant lookup
  merged_for_tenant-get_for_tenant r tenant name indexed =
      let globals = lookup-merge_into name (bucket_of "" r.agents) [] (indexed.0.1 "") in
      (elim (Bool-cases (str_eq tenant "")) [
        | inl anonymous ↦
            ap
              (λ b. lookup name (
                if b
                then merge_into S (bucket_of "" r.agents) []
                else merge_into S (bucket_of tenant r.agents)
                    (merge_into S (bucket_of "" r.agents) [])))
              anonymous
            ∙ globals
            ∙ ap (λ k. or_else (find k name r.agents) none) (sym (str_eq→eq tenant "" anonymous))
            ∙ ap
                (λ b.
                  or_else (find tenant name r.agents) (if b then none else find "" name r.agents))
                (sym anonymous)
        | inr bound ↦
            ap
              (λ b. lookup name (
                if b
                then merge_into S (bucket_of "" r.agents) []
                else merge_into S (bucket_of tenant r.agents)
                    (merge_into S (bucket_of "" r.agents) [])))
              bound
            ∙ lookup-merge_into name (bucket_of tenant r.agents)
                (merge_into S (bucket_of "" r.agents) []) (indexed.0.1 tenant)
            ∙ ap (λ x. or_else (find tenant name r.agents) x)
                (globals ∙ or_else-none (find "" name r.agents))
            ∙ ap
                (λ b.
                  or_else (find tenant name r.agents) (if b then none else find "" name r.agents))
                (sym bound)
      ])
