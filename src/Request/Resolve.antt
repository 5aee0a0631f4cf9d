-- ===== src/Request/Resolve.antt =====
-- internal/engine/engine.go: the agent that a request is for.
use mock_agents.Prelude.{
  Bool, true, false, String, Option, none, some, List, [], ◌∷◌, if◌then◌else◌, str_eq, str_lt,
  Entry, lookup, map, ◌≡◌, refl, sym, ap, ◌∙◌, ◌⊎◌, inl, inr, str_eq_refl, by_test,
}
use mock_agents.Request.{InboundRequest}
use mock_agents.Registry.{
  AgentDefinition, AgentRegistry, Bucket, bucket_of, or_else, new_agent_registry, get_for_tenant,
  get_by_model_for_tenant, get_owned_for_tenant, merged_for_tenant,
}
use mock_agents.Registry.Buckets.{find}
use mock_agents.Registry.Fresh.{Stored, IsIndexed}
use mock_agents.Registry.Lookups.{merged_for_tenant-get_for_tenant}
use mock_agents.Registry.History.{Change, history, reached-IsIndexed}

module _ (S : Type 0) where
  -- sort.Slice by name.
  unfoldable pub insert_by_name :
      AgentDefinition S → List (AgentDefinition S) → List (AgentDefinition S)
  insert_by_name d [] = d ∷ []
  insert_by_name d (e ∷ es) =
      let later = insert_by_name d es in if str_lt e.name d.name then e ∷ later else d ∷ e ∷ es

  unfoldable pub sort_by_name : List (AgentDefinition S) → List (AgentDefinition S)
  sort_by_name [] = []
  sort_by_name (d ∷ ds) = insert_by_name d (sort_by_name ds)

  unfoldable pub list_for_tenant : String → AgentRegistry S → List (AgentDefinition S)
  list_for_tenant tenant r =
      sort_by_name (map (λ (e : Entry (AgentDefinition S)). e.val) (merged_for_tenant S tenant r))

  abbrev pub only : List (AgentDefinition S) → Option (AgentDefinition S)
  only [] = none
  only (d ∷ []) = some d
  only (d ∷ e ∷ ds) = none

  -- `none` is ErrAgentNotFound.
  unfoldable pub resolve_agent_for_tenant :
      InboundRequest → String → AgentRegistry S → Option (AgentDefinition S)
  resolve_agent_for_tenant req tenant r =
      or_else (if str_eq req.agent_name "" then none else get_for_tenant S req.agent_name tenant r)
        (or_else
          (if str_eq req.model "" then none else get_by_model_for_tenant S req.model tenant r)
          (if str_eq tenant "" then only (list_for_tenant "" r) else none))

  insert_by_name-cons :
      (d : AgentDefinition S) (ds : List (AgentDefinition S))
      → (e : AgentDefinition S) × (es : List (AgentDefinition S)) × (insert_by_name d ds ≡ e ∷ es)
  unfolding insert_by_name
  insert_by_name-cons d [] = (d, [], refl)
  insert_by_name-cons d (x ∷ xs) =
      by_test (λ ys. (e : AgentDefinition S) × (es : List (AgentDefinition S)) × (ys ≡ e ∷ es))
        (str_lt x.name d.name) _ _ (λ _. (x, insert_by_name d xs, refl)) (λ _. (d, x ∷ xs, refl))

  only-insert_by_name :
      (d x : AgentDefinition S) (xs : List (AgentDefinition S))
      → only (insert_by_name d (x ∷ xs)) ≡ none
  unfolding insert_by_name
  only-insert_by_name d x xs =
      by_test (λ ys. only ys ≡ none) (str_lt x.name d.name) _ _
        (λ _. ap (λ ys. only (x ∷ ys)) (insert_by_name-cons d xs).2) (λ _. refl)

  -- A sole agent of a sorted list is the sole agent of the list.
  only-sort_by_name :
      (ds : List (AgentDefinition S)) (e : AgentDefinition S)
      → only (sort_by_name ds) ≡ some e
      → only ds ≡ some e
  unfolding sort_by_name insert_by_name
  only-sort_by_name [] e h = h
  only-sort_by_name (d ∷ []) e h = h
  only-sort_by_name (d ∷ x ∷ xs) e h =
      let first = insert_by_name-cons x (sort_by_name xs) in
      absurd (
        cc (
          sym
            (ap (λ ys. only (insert_by_name d ys)) first.2 ∙ only-insert_by_name d first.0 first.1)
          ∙ h))

  only-values :
      (b : Bucket S) (d : AgentDefinition S)
      → only (map (λ (e : Entry (AgentDefinition S)). e.val) b) ≡ some d
      → (k : String) × (lookup k b ≡ some d)
  unfolding lookup
  only-values [] d h = absurd (cc h)
  only-values (e ∷ []) d h =
      (e.key, ap (λ b. if b then some e.val else none) (str_eq_refl e.key) ∙ h)
  only-values (e ∷ f ∷ rest) d h = absurd (cc h)

  -- The agent is registered, as the tenant's own or as a global one.
  abbrev pub Visible : String → AgentRegistry S → AgentDefinition S → Type 0
  Visible tenant r d =
      ((d.tenant_id ≡ tenant) ⊎ (d.tenant_id ≡ ""))
      × (get_owned_for_tenant S d.name d.tenant_id r ≡ some d)

  found-Visible :
      (r : AgentRegistry S) (tenant owner name : String) (d : AgentDefinition S)
      → Stored S r.agents
      → (owner ≡ tenant) ⊎ (owner ≡ "")
      → find owner name r.agents ≡ some d
      → Visible tenant r d
  unfolding get_owned_for_tenant
  found-Visible r tenant owner name d stored own found =
      let keys = stored.2 owner name d found in
      (
        (elim own [ inl mine ↦ inl (keys.1 ∙ mine) | inr shared ↦ inr (keys.1 ∙ shared) ]),
        ap (λ k. find k d.name r.agents) keys.1 ∙ ap (λ k. find owner k r.agents) keys.0 ∙ found,
      )

  or_else-cases :
      (a b : Option (AgentDefinition S)) (d : AgentDefinition S)
      → or_else a b ≡ some d
      → (a ≡ some d) ⊎ (b ≡ some d)
  or_else-cases none b d h = inr h
  or_else-cases (some x) b d h = inl h

  get_for_tenant-Visible :
      (r : AgentRegistry S) (name tenant : String) (d : AgentDefinition S)
      → Stored S r.agents
      → get_for_tenant S name tenant r ≡ some d
      → Visible tenant r d
  unfolding get_for_tenant
  get_for_tenant-Visible r name tenant d stored h =
      elim (or_else-cases (find tenant name r.agents)
        (if str_eq tenant "" then none else find "" name r.agents) d h) [
          | inl own ↦ found-Visible r tenant tenant name d stored (inl refl) own
          | inr shared ↦ found-Visible r tenant "" name d stored (inr refl) (
              by_test (λ x. x ≡ some d → find "" name r.agents ≡ some d) (str_eq tenant "") none
                (find "" name r.agents) (λ _ k. absurd (cc k)) (λ _ k. k) shared)
        ]

  get_by_model_for_tenant-Visible :
      (r : AgentRegistry S) (model tenant : String) (d : AgentDefinition S)
      → IsIndexed S r
      → str_eq model "" ≡ false
      → get_by_model_for_tenant S model tenant r ≡ some d
      → Visible tenant r d
  unfolding get_by_model_for_tenant
  get_by_model_for_tenant-Visible r model tenant d indexed proper h =
      let owners = bucket_of model r.by_model_tenant in
      let winner = indexed.1 model proper in
      elim (or_else-cases (lookup tenant owners) (lookup "" owners) d h) [
        | inl own ↦
            found-Visible r tenant tenant d.name d indexed.0 (inl refl) ((winner tenant).0 d own).0
        | inr shared ↦
            found-Visible r tenant "" d.name d indexed.0 (inr refl) ((winner "").0 d shared).0
      ]

  sole-Visible :
      (r : AgentRegistry S) (tenant : String) (d : AgentDefinition S)
      → IsIndexed S r
      → only (list_for_tenant "" r) ≡ some d
      → Visible tenant r d
  unfolding list_for_tenant
  sole-Visible r tenant d indexed h =
      let globals = merged_for_tenant S "" r in
      let named =
        only-values globals d
          (only-sort_by_name (map (λ (e : Entry (AgentDefinition S)). e.val) globals) d h) in
      (elim (get_for_tenant-Visible r named.0 "" d indexed.0
        (sym (merged_for_tenant-get_for_tenant S r "" named.0 indexed) ∙ named.1)).0 [
          | inl shared ↦ (
            inr shared,
            (get_for_tenant-Visible r named.0 "" d indexed.0
                (sym (merged_for_tenant-get_for_tenant S r "" named.0 indexed) ∙ named.1)).1,
          )
          | inr shared ↦ (
            inr shared,
            (get_for_tenant-Visible r named.0 "" d indexed.0
                (sym (merged_for_tenant-get_for_tenant S r "" named.0 indexed) ∙ named.1)).1,
          )
        ])

  guarded_some :
      (b : Bool) (o : Option (AgentDefinition S)) (d : AgentDefinition S)
      → (if b then none else o) ≡ some d
      → (b ≡ false) × (o ≡ some d)
  guarded_some true o d h = absurd (cc h)
  guarded_some false o d h = (refl, h)

  allowed_some :
      (b : Bool) (o : Option (AgentDefinition S)) (d : AgentDefinition S)
      → (if b then o else none) ≡ some d
      → o ≡ some d
  allowed_some true o d h = h
  allowed_some false o d h = absurd (cc h)

  -- After any sequence of changes of a new registry, a request that finds an agent for a tenant
  -- finds one that is registered, and that is the tenant's own or global: never another tenant's.
  pub resolve_agent_for_tenant-Visible :
      (cs : List (Change S)) (req : InboundRequest) (tenant : String) (d : AgentDefinition S)
      → resolve_agent_for_tenant req tenant (history S cs (new_agent_registry S)) ≡ some d
      → Visible tenant (history S cs (new_agent_registry S)) d
  unfolding resolve_agent_for_tenant
  resolve_agent_for_tenant-Visible cs req tenant d h =
      let r = history S cs (new_agent_registry S) in
      let indexed = reached-IsIndexed S cs in
      let by_name : Option (AgentDefinition S) =
        if str_eq req.agent_name "" then none else get_for_tenant S req.agent_name tenant r in
      let by_model : Option (AgentDefinition S) =
        if str_eq req.model "" then none else get_by_model_for_tenant S req.model tenant r in
      let sole : Option (AgentDefinition S) =
        if str_eq tenant "" then only (list_for_tenant "" r) else none in
      elim (or_else-cases by_name (or_else by_model sole) d h) [
        | inl named ↦
            get_for_tenant-Visible r req.agent_name tenant d indexed.0
              (guarded_some (str_eq req.agent_name "") _ d named).1
        | inr other ↦ elim (or_else-cases by_model sole d other) [
          | inl modelled ↦
              let found = guarded_some (str_eq req.model "") _ d modelled in
              get_by_model_for_tenant-Visible r req.model tenant d indexed found.0 found.1
          | inr last ↦ sole-Visible r tenant d indexed (allowed_some (str_eq tenant "") _ d last)
        ]
      ]
