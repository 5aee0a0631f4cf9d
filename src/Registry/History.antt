-- ===== src/Registry/History.antt =====
-- internal/engine/agent_registry.go: every sequence of registrations and removals.
use mock_agents.Prelude.{
  false, String, Option, none, some, List, [], ◌∷◌, str_eq, lookup, ◌≡◌, refl, by_test,
}
use mock_agents.Registry.{
  AgentDefinition, AgentRegistry, bucket_of, new_agent_registry, register, register_with_source,
  remove_loop, remove, remove_for_tenant, or_else, get_by_model_for_tenant,
}
use mock_agents.Registry.Fresh.{Winner, IsIndexed}
use mock_agents.Registry.Register.{register-IsIndexed, register_with_source-IsIndexed}
use mock_agents.Registry.Removal.{remove_for_tenant-IsIndexed}
use mock_agents.Registry.Removal.Effect.{remove_loop-IsIndexed}

module _ (S : Type 0) where
  -- The calls that change the registry.
  pub data Change : Type 0 where
    registered : Option (AgentDefinition S) → Change
    registered_from : Option (AgentDefinition S) → String → Change
    removed : String → Change
    removed_for_tenant : String → String → Change

  abbrev kept : AgentRegistry S → Option (AgentRegistry S) → AgentRegistry S
  kept r none = r
  kept r (some later) = later

  unfoldable pub apply_change : Change → AgentRegistry S → AgentRegistry S
  apply_change (registered def) r = register S def r
  apply_change (registered_from def path) r = register_with_source S def path r
  apply_change (removed name) r = kept r (remove S name r)
  apply_change (removed_for_tenant name tenant) r = kept r (remove_for_tenant S name tenant r)

  abbrev pub history : List Change → AgentRegistry S → AgentRegistry S
  history [] r = r
  history (c ∷ cs) r = history cs (apply_change c r)

  kept-IsIndexed :
      (r : AgentRegistry S) (o : Option (AgentRegistry S))
      → IsIndexed S r
      → ((later : AgentRegistry S) → o ≡ some later → IsIndexed S later)
      → IsIndexed S (kept r o)
  kept-IsIndexed r none indexed h = indexed
  kept-IsIndexed r (some later) indexed h = h later refl

  apply_change-IsIndexed :
      (c : Change) (r : AgentRegistry S) → IsIndexed S r → IsIndexed S (apply_change c r)
  unfolding apply_change remove
  apply_change-IsIndexed (registered def) r indexed = register-IsIndexed S def r indexed
  apply_change-IsIndexed (registered_from def path) r indexed =
      register_with_source-IsIndexed S def path r indexed
  apply_change-IsIndexed (removed name) r indexed =
      by_test (λ x. IsIndexed S (kept r x)) (remove_loop S name r.agents r []).2 _ none
        (λ _. remove_loop-IsIndexed S name r indexed) (λ _. indexed)
  apply_change-IsIndexed (removed_for_tenant name tenant) r indexed =
      kept-IsIndexed r (remove_for_tenant S name tenant r) indexed
        (λ later h. remove_for_tenant-IsIndexed S name tenant r later indexed h)

  new-IsIndexed : IsIndexed S (new_agent_registry S)
  unfolding new_agent_registry lookup
  new-IsIndexed = (
    (tt, (λ _. tt), (λ o n d h. absurd (cc h))),
    (λ model proper o. ((λ w h. absurd (cc h)), (λ n d h. absurd (cc h)))),
  )

  pub history-IsIndexed :
      (cs : List Change) (r : AgentRegistry S) → IsIndexed S r → IsIndexed S (history cs r)
  history-IsIndexed [] r indexed = indexed
  history-IsIndexed (c ∷ cs) r indexed =
      history-IsIndexed cs (apply_change c r) (apply_change-IsIndexed c r indexed)

  -- After any sequence of registrations and removals on a new registry, failed removals included,
  -- every agent stands under its own tenant and name, and for every model but the empty one the
  -- index has, for each tenant, the agent with the smallest name among the tenant's that serve it.
  pub reached-IsIndexed : (cs : List Change) → IsIndexed S (history cs (new_agent_registry S))
  reached-IsIndexed cs = history-IsIndexed cs (new_agent_registry S) new-IsIndexed

  -- After any sequence of changes of a new registry, a lookup by model gives the winner of the
  -- tenant's own agents or, if none of them serves the model, the winner of the global agents.
  pub get_by_model_for_tenant_lem :
      (cs : List Change) (model tenant : String)
      → str_eq model "" ≡ false
      → (own : Option (AgentDefinition S)) × (shared : Option (AgentDefinition S))
        × (get_by_model_for_tenant S model tenant (history cs (new_agent_registry S))
            ≡ or_else own shared)
        × Winner S model (bucket_of tenant (history cs (new_agent_registry S)).agents) own
        × Winner S model (bucket_of "" (history cs (new_agent_registry S)).agents) shared
  unfolding get_by_model_for_tenant
  get_by_model_for_tenant_lem cs model tenant proper =
      let r = history cs (new_agent_registry S) in
      let fresh = (reached-IsIndexed cs).1 model proper in
      (
        lookup tenant (bucket_of model r.by_model_tenant),
        lookup "" (bucket_of model r.by_model_tenant),
        refl,
        fresh tenant,
        fresh "",
      )
