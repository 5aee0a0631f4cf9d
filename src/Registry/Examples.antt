-- ===== src/Registry/Examples.antt =====
-- Two tenants and the global tenant share names and models; an agent changes its model, one goes.
use mock_agents.Prelude.{ℕ, String, Option, some, List, [], ◌∷◌, ◌≡◌, refl, lookup}
use mock_agents.Registry.{
  AgentDefinition, AgentRegistry, bucket_of, or_else, new_agent_registry, remove,
  get_by_model_for_tenant, get_for_tenant, merged_for_tenant,
}
use mock_agents.Registry.Fresh.{IsIndexed, Winner}
use mock_agents.Registry.Removal.Effect.{Removes, remove-Removes}
use mock_agents.Registry.History.{
  Change, registered, registered_from, removed, removed_for_tenant, history, reached-IsIndexed,
  get_by_model_for_tenant_lem,
}
use mock_agents.Registry.Lookups.{merged_for_tenant-get_for_tenant}

abbrev helper : String → String → AgentDefinition ℕ
helper tenant model = record {
  address = 1;
  tenant_id = tenant;
  name = "helper";
  model = model;
  rest = 0;
}

abbrev writer : String → String → AgentDefinition ℕ
writer tenant model = record {
  address = 2;
  tenant_id = tenant;
  name = "writer";
  model = model;
  rest = 0;
}

abbrev changes : List (Change ℕ)
changes =
    registered (some (helper "" "gpt"))
    ∷ registered_from (some (writer "acme" "gpt")) "writer.yaml"
    ∷ registered (some (helper "acme" "gpt"))
    ∷ registered (some (helper "acme" "claude"))
    ∷ removed "nobody"
    ∷ removed_for_tenant "helper" "globex"
    ∷ []

abbrev reached : AgentRegistry ℕ
reached = history ℕ changes (new_agent_registry ℕ)

reached-IsIndexed_example : IsIndexed ℕ reached
reached-IsIndexed_example = reached-IsIndexed ℕ changes

get_by_model_for_tenant_lem_example :
    (own : Option (AgentDefinition ℕ)) × (shared : Option (AgentDefinition ℕ))
    × (get_by_model_for_tenant ℕ "gpt" "acme" reached ≡ or_else own shared)
    × Winner ℕ "gpt" (bucket_of "acme" reached.agents) own
    × Winner ℕ "gpt" (bucket_of "" reached.agents) shared
get_by_model_for_tenant_lem_example = get_by_model_for_tenant_lem ℕ changes "gpt" "acme" refl

remove-Removes_example : Removes ℕ "helper" reached (remove ℕ "helper" reached)
remove-Removes_example = remove-Removes ℕ "helper" reached (reached-IsIndexed ℕ changes)

merged_for_tenant-get_for_tenant_example :
    lookup "helper" (merged_for_tenant ℕ "acme" reached) ≡ get_for_tenant ℕ "helper" "acme" reached
merged_for_tenant-get_for_tenant_example =
    merged_for_tenant-get_for_tenant ℕ reached "acme" "helper" (reached-IsIndexed ℕ changes)
