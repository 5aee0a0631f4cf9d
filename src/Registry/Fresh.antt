-- ===== src/Registry/Fresh.antt =====
-- internal/engine/agent_registry.go: the invariant of the registry, and when a change of the agents
-- leaves the index of a model right.
use mock_agents.Prelude.{
  false, String, Option, none, some, List, [], ◌∷◌, if◌then◌else◌, str_eq, Assoc, lookup, ◌≡◌, refl,
  sym, ap, ◌∙◌, ◌⊎◌, ◌↔◌, inl, inr, In, Bool-cases, Distinct, lookup-In, In-lookup, str_eq→eq,
  by_test, subst, str_eq_refl,
}
use mock_agents.Registry.{
  AgentDefinition, AgentRegistry, Bucket, bucket_of, scan_agents, rebuild_model_bucket, rebuild_all,
}
use mock_agents.Registry.Smallest.{smallest, Bounds, smallest-Bounds, smallest-from}
use mock_agents.Registry.Buckets.{find, bucket_of-put}
use mock_agents.Registry.Index.{lookup-scan_agents}

module _ (S : Type 0) where
  -- The agent of the bucket with the smallest name among those that serve the model, if any.
  abbrev pub Winner : String → Bucket S → Option (AgentDefinition S) → Type 0
  Winner model bucket result =
      ((w : AgentDefinition S)
        → result ≡ some w
        → (lookup w.name bucket ≡ some w) × (w.model ≡ model))
      × ((n : String) (d : AgentDefinition S)
          → lookup n bucket ≡ some d
          → d.model ≡ model
          → Bounds S result d)

  -- The agents of the maps of maps stand under their own tenants and names.
  abbrev pub Stored : Assoc (Bucket S) → Type 0
  Stored agents =
      Distinct agents
      × ((o : String) → Distinct (bucket_of o agents))
      × ((o n : String) (d : AgentDefinition S)
          → find o n agents ≡ some d
          → (d.name ≡ n) × (d.tenant_id ≡ o))

  -- The index has the winners of one model.
  abbrev pub Fresh : String → AgentRegistry S → Type 0
  Fresh model r =
      (o : String)
      → Winner model (bucket_of o r.agents) (lookup o (bucket_of model r.by_model_tenant))

  -- What every operation keeps: agents under their keys, and an index without a stale model.
  abbrev pub IsIndexed : AgentRegistry S → Type 0
  IsIndexed r = Stored r.agents × ((model : String) → str_eq model "" ≡ false → Fresh model r)

  smallest-Winner :
      (model : String) (bucket : Bucket S)
      → Distinct bucket
      → ((n : String) (d : AgentDefinition S) → lookup n bucket ≡ some d → d.name ≡ n)
      → Winner model bucket (smallest S model none bucket)
  smallest-Winner model bucket distinct named = (from, least)
    where
      from :
          (w : AgentDefinition S)
          → smallest S model none bucket ≡ some w
          → (lookup w.name bucket ≡ some w) × (w.model ≡ model)
      from w h = elim (smallest-from S model bucket none w h) [
        | inl nothing ↦ absurd (cc nothing)
        | inr serves ↦
            let at_key : lookup serves.0.key bucket ≡ some w =
              lookup-In serves.0 bucket distinct serves.1 ∙ ap some serves.2 in
            (ap (λ k. lookup k bucket) (named serves.0.key w at_key) ∙ at_key, serves.3)
      ]

      least :
          (n : String) (d : AgentDefinition S)
          → lookup n bucket ≡ some d
          → d.model ≡ model
          → Bounds S (smallest S model none bucket) d
      least n d found serves =
          let e = In-lookup n bucket d found in
          smallest-Bounds S model bucket none d (e.0, e.1, e.2, serves)

  -- `rebuild_model_bucket` writes the winners, and leaves the agents and the other models alone.
  pub rebuild-agents :
      (k : String) (r : AgentRegistry S) → (rebuild_model_bucket S k r).agents ≡ r.agents
  unfolding rebuild_model_bucket
  rebuild-agents k r =
      by_test (λ (x : AgentRegistry S). x.agents ≡ r.agents) (str_eq k "") _ _ (λ _. refl)
        (λ _. refl)

  pub rebuild-Fresh_self :
      (k : String) (r : AgentRegistry S)
      → Stored r.agents
      → str_eq k "" ≡ false
      → Fresh k (rebuild_model_bucket S k r)
  unfolding rebuild_model_bucket lookup
  rebuild-Fresh_self k r stored proper =
      by_test (λ x. Fresh k x) (str_eq k "") r _ (λ empty. absurd (cc (sym proper ∙ empty)))
        (λ _ o.
          subst (λ x. Winner k (bucket_of o r.agents) x)
            (sym (
              ap (λ b. lookup o b)
                (bucket_of-put k k (scan_agents S k r.agents []) r.by_model_tenant)
              ∙ ap
                  (λ b.
                    lookup o
                      (if b then scan_agents S k r.agents [] else bucket_of k r.by_model_tenant))
                  (str_eq_refl k)
              ∙ lookup-scan_agents S k o r.agents [] stored.0))
            (smallest-Winner k (bucket_of o r.agents) (stored.1 o) (λ n d h. (stored.2 o n d h).0)))

  rebuild_other :
      (k model : String) (r : AgentRegistry S)
      → str_eq k model ≡ false
      → Fresh model r
      → Fresh model (rebuild_model_bucket S k r)
  unfolding rebuild_model_bucket
  rebuild_other k model r other fresh =
      by_test (λ x. Fresh model x) (str_eq k "") r _ (λ _. fresh)
        (λ _ o.
          subst (λ b. Winner model (bucket_of o r.agents) (lookup o b))
            (sym (
              bucket_of-put k model (scan_agents S k r.agents []) r.by_model_tenant
              ∙ ap
                  (λ b.
                    if b then scan_agents S k r.agents [] else bucket_of model r.by_model_tenant)
                  other))
            (fresh o))

  pub rebuild-Fresh :
      (k model : String) (r : AgentRegistry S)
      → Stored r.agents
      → str_eq model "" ≡ false
      → Fresh model r
      → Fresh model (rebuild_model_bucket S k r)
  rebuild-Fresh k model r stored proper fresh = elim (Bool-cases (str_eq k model)) [
    | inl same ↦
        subst (λ m. Fresh m (rebuild_model_bucket S k r)) (str_eq→eq k model same)
          (rebuild-Fresh_self k r stored (ap (λ m. str_eq m "") (str_eq→eq k model same) ∙ proper))
    | inr other ↦ rebuild_other k model r other fresh
  ]

  -- Reads of one model that the change from `agents` to `later` keeps.
  abbrev pub Agree : String → Assoc (Bucket S) → Assoc (Bucket S) → Type 0
  Agree model agents later =
      (o n : String) (d : AgentDefinition S)
      → d.model ≡ model
      → (find o n later ≡ some d) ↔ (find o n agents ≡ some d)

  pub Agree-Fresh :
      (model : String) (r later : AgentRegistry S)
      → Agree model r.agents later.agents
      → later.by_model_tenant ≡ r.by_model_tenant
      → Fresh model r
      → Fresh model later
  Agree-Fresh model r later agree index fresh o =
      subst (λ x. Winner model (bucket_of o later.agents) (lookup o (bucket_of model x)))
        (sym index)
        (
          (λ w h. let won = (fresh o).0 w h in ((agree o w.name w won.1).1 won.0, won.1)),
          (λ n d found serves. (fresh o).1 n d ((agree o n d serves).0 found) serves),
        )

  -- `rebuild_all`
  pub rebuild_all-agents :
      (ms : List String) (r : AgentRegistry S) → (rebuild_all S ms r).agents ≡ r.agents
  unfolding rebuild_all
  rebuild_all-agents [] r = refl
  rebuild_all-agents (m ∷ ms) r =
      rebuild_all-agents ms (rebuild_model_bucket S m r) ∙ rebuild-agents m r

  pub rebuild_all-Stored :
      (ms : List String) (r : AgentRegistry S)
      → Stored r.agents
      → Stored (rebuild_all S ms r).agents
  unfolding rebuild_all
  rebuild_all-Stored ms r stored = subst (λ x. Stored x) (sym (rebuild_all-agents ms r)) stored

  pub rebuild_all-Fresh :
      (ms : List String) (model : String) (r : AgentRegistry S)
      → Stored r.agents
      → str_eq model "" ≡ false
      → In model ms ⊎ Fresh model r
      → Fresh model (rebuild_all S ms r)
  unfolding rebuild_all
  rebuild_all-Fresh [] model r stored proper h = elim h [
    | inl nowhere ↦ absurd nowhere
    | inr fresh ↦ fresh
  ]
  rebuild_all-Fresh (m ∷ ms) model r stored proper h =
      let kept : Stored (rebuild_model_bucket S m r).agents =
        subst (λ x. Stored x) (sym (rebuild-agents m r)) stored in
      rebuild_all-Fresh ms model (rebuild_model_bucket S m r) kept proper (elim h [
        | inl (inl here) ↦ inr (
            subst (λ k. Fresh model (rebuild_model_bucket S k r)) here
              (rebuild-Fresh_self model r stored proper))
        | inl (inr there) ↦ inl there
        | inr fresh ↦ inr (rebuild-Fresh m model r stored proper fresh)
      ])
