-- ===== src/Registry/Register.antt =====
-- internal/engine/agent_registry.go: what one write of an agent changes, and the registrations.
use mock_agents.Prelude.{
  true, false, not, ◌&&◌, String, Option, none, some, List, [], ◌∷◌, if◌then◌else◌, str_eq, Assoc,
  insert, ◌≡◌, refl, sym, ap, ◌∙◌, ◌⊎◌, inl, inr, In, Bool-cases, Distinct, insert-Distinct,
  str_eq→eq, str_eq_refl, by_test, subst, some-injective,
}
use mock_agents.Registry.{
  AgentDefinition, AgentRegistry, Bucket, bucket_of, rebuild_all, old_model, put_agent,
  register_locked, register, register_with_source,
}
use mock_agents.Registry.Buckets.{find, bucket_of-insert, find-put}
use mock_agents.Registry.Fresh.{
  Stored, Fresh, IsIndexed, Agree, Agree-Fresh, rebuild_all-Stored, rebuild_all-Fresh,
}

module _ (S : Type 0) where
  -- The value is no agent that serves the model.
  abbrev pub Skips : String → Option (AgentDefinition S) → Type 0
  Skips model x = (d : AgentDefinition S) → x ≡ some d → d.model ≡ model → ⊥

  -- One write at two keys, where neither the old nor the new value serves the model.
  pub write-Agree :
      (model t k : String) (x : Option (AgentDefinition S)) (agents later : Assoc (Bucket S))
      → ((o n : String)
          → find o n later ≡ (if str_eq t o && str_eq k n then x else find o n agents))
      → Skips model x
      → Skips model (find t k agents)
      → Agree S model agents later
  write-Agree model t k x agents later written new old o n d serves =
      elim (Bool-cases (str_eq t o && str_eq k n)) [
        | inl hit ↦
            let reads : find o n later ≡ x =
              written o n ∙ ap (λ b. if b then x else find o n agents) hit in
            let keys = both hit in
            (
              (λ found. absurd (new d (sym reads ∙ found) serves)),
              (λ found. absurd (
                  old d
                    (ap (λ p. find p k agents) keys.0 ∙ ap (λ q. find o q agents) keys.1 ∙ found)
                    serves)),
            )
        | inr miss ↦
            let reads : find o n later ≡ find o n agents =
              written o n ∙ ap (λ b. if b then x else find o n agents) miss in
            ((λ found. sym reads ∙ found), (λ found. reads ∙ found))
      ]
    where
      both : (str_eq t o && str_eq k n) ≡ true → (t ≡ o) × (k ≡ n)
      both hit = elim (Bool-cases (str_eq t o)) [
        | inl same ↦
            (str_eq→eq t o same, str_eq→eq k n (sym (ap (λ b. b && str_eq k n) same) ∙ hit))
        | inr other ↦ absurd (cc (sym (ap (λ b. b && str_eq k n) other) ∙ hit))
      ]

  -- A write keeps agents under their keys, when what it writes is under its own.
  pub write-keyed :
      (t k : String) (x : Option (AgentDefinition S)) (agents later : Assoc (Bucket S))
      → ((o n : String)
          → find o n later ≡ (if str_eq t o && str_eq k n then x else find o n agents))
      → ((d : AgentDefinition S) → x ≡ some d → (d.name ≡ k) × (d.tenant_id ≡ t))
      → Stored S agents
      → (o n : String) (d : AgentDefinition S) → find o n later ≡ some d
      → (d.name ≡ n) × (d.tenant_id ≡ o)
  write-keyed t k x agents later written new stored o n d found = elim (Bool-cases (str_eq t o)) [
    | inl own ↦ elim (Bool-cases (str_eq k n)) [
      | inl same ↦
          let put = new d (
            sym (
              ap (λ b. if b && str_eq k n then x else find o n agents) own
              ∙ ap (λ b. if b then x else find o n agents) same)
            ∙ sym (written o n)
            ∙ found) in
          (put.0 ∙ str_eq→eq k n same, put.1 ∙ str_eq→eq t o own)
      | inr other ↦ stored.2 o n d (
          sym (
            ap (λ b. if b && str_eq k n then x else find o n agents) own
            ∙ ap (λ b. if b then x else find o n agents) other)
          ∙ sym (written o n)
          ∙ found)
    ]
    | inr foreign ↦ stored.2 o n d (
        sym (ap (λ b. if b && str_eq k n then x else find o n agents) foreign)
        ∙ sym (written o n)
        ∙ found)
  ]

  put_agent-Stored :
      (def : AgentDefinition S) (r : AgentRegistry S)
      → Stored S r.agents
      → Stored S (put_agent S def r).agents
  put_agent-Stored def r stored = (
    insert-Distinct def.tenant_id _ r.agents stored.0,
    (λ o.
        subst (λ b. Distinct b)
          (sym (
            bucket_of-insert def.tenant_id o
              (insert def.name def (bucket_of def.tenant_id r.agents)) r.agents))
          (by_test (λ b. Distinct b) (str_eq def.tenant_id o) _ _
            (λ _.
              insert-Distinct def.name def (bucket_of def.tenant_id r.agents)
                (stored.1 def.tenant_id))
            (λ _. stored.1 o))),
    write-keyed def.tenant_id def.name (some def) r.agents (put_agent S def r).agents
        (λ o n. find-put def.tenant_id def.name o n def r.agents)
        (λ d h.
          let same = some-injective def d h in
          (
            ap (λ (x : AgentDefinition S). x.name) (sym same),
            ap (λ (x : AgentDefinition S). x.tenant_id) (sym same),
          ))
        stored,
  )

  -- The models that a registration rebuilds.
  abbrev touched : AgentDefinition S → String → List String
  touched def old =
      if not (str_eq old "") && not (str_eq old def.model)
      then def.model ∷ old ∷ []
      else def.model ∷ []

  register_locked-rebuild_all :
      (def : AgentDefinition S) (r : AgentRegistry S)
      → register_locked S def r
        ≡ rebuild_all S
            (touched def (old_model S (find def.tenant_id def.name r.agents)))
            (put_agent S def r)
  unfolding register_locked rebuild_all
  register_locked-rebuild_all def r =
      let old = old_model S (find def.tenant_id def.name r.agents) in
      (elim (Bool-cases (not (str_eq old "") && not (str_eq old def.model))) [
        | inl moved ↦ rw moved refl
        | inr stays ↦ rw stays refl
      ])

  old_model-In :
      (def : AgentDefinition S) (old model : String)
      → str_eq model "" ≡ false
      → model ≡ old
      → In model (touched def old)
  old_model-In def old model proper same =
      by_test (λ ms. In model ms) (not (str_eq old "") && not (str_eq old def.model)) _ _
        (λ _. inr (inl same))
        (λ stays. inl (elim (Bool-cases (str_eq old def.model)) [
          | inl alike ↦ same ∙ str_eq→eq old def.model alike
          | inr other ↦ absurd (
              cc (
                sym (
                  ap (λ b. not b && not (str_eq old def.model))
                    (ap (λ k. str_eq k "") (sym same) ∙ proper)
                  ∙ ap (λ b. not b) other)
                ∙ stays))
        ]))

  new_model-In : (def : AgentDefinition S) (old : String) → In def.model (touched def old)
  new_model-In def old =
      by_test (λ ms. In def.model ms) (not (str_eq old "") && not (str_eq old def.model)) _ _
        (λ _. inl refl) (λ _. inl refl)

  Skips-old :
      (model : String) (prev : Option (AgentDefinition S))
      → str_eq model (old_model S prev) ≡ false
      → Skips model prev
  Skips-old model none other d h serves = absurd (cc h)
  Skips-old model (some p) other d h serves = absurd (
      cc (
        sym other
        ∙ ap (λ (x : AgentDefinition S). str_eq model x.model) (some-injective p d h)
        ∙ ap (λ m. str_eq model m) serves
        ∙ str_eq_refl model))

  pub Skips-other :
      (model : String) (def : AgentDefinition S)
      → str_eq model def.model ≡ false
      → Skips model (some def)
  Skips-other model def other = Skips-old model (some def) other

  put_agent-Fresh :
      (def : AgentDefinition S) (r : AgentRegistry S) (model : String)
      → str_eq model "" ≡ false
      → Fresh S model r
      → In model (touched def (old_model S (find def.tenant_id def.name r.agents)))
        ⊎ Fresh S model (put_agent S def r)
  put_agent-Fresh def r model proper fresh =
      let prev = find def.tenant_id def.name r.agents in
      (elim (Bool-cases (str_eq model def.model)) [
        | inl same ↦ inl (
            subst (λ m. In m (touched def (old_model S prev)))
              (sym (str_eq→eq model def.model same)) (new_model-In def (old_model S prev)))
        | inr other ↦ elim (Bool-cases (str_eq model (old_model S prev))) [
          | inl was ↦ inl (
              old_model-In def (old_model S prev) model proper
                (str_eq→eq model (old_model S prev) was))
          | inr never ↦ inr (
              Agree-Fresh S model r (put_agent S def r)
                (write-Agree model def.tenant_id def.name (some def) r.agents
                  (put_agent S def r).agents
                  (λ o n. find-put def.tenant_id def.name o n def r.agents)
                  (Skips-other model def other) (Skips-old model prev never))
                refl fresh)
        ]
      ])

  -- Registering keeps the invariant.
  pub register_locked-IsIndexed :
      (def : AgentDefinition S) (r : AgentRegistry S)
      → IsIndexed S r
      → IsIndexed S (register_locked S def r)
  register_locked-IsIndexed def r indexed =
      let stored = put_agent-Stored def r indexed.0 in
      let ms = touched def (old_model S (find def.tenant_id def.name r.agents)) in
      subst (λ x. IsIndexed S x) (sym (register_locked-rebuild_all def r))
        (
          rebuild_all-Stored S ms (put_agent S def r) stored,
          (λ model proper.
              rebuild_all-Fresh S ms model (put_agent S def r) stored proper
                (put_agent-Fresh def r model proper (indexed.1 model proper))),
        )

  pub register-IsIndexed :
      (def : Option (AgentDefinition S)) (r : AgentRegistry S)
      → IsIndexed S r
      → IsIndexed S (register S def r)
  unfolding register
  register-IsIndexed none r indexed = indexed
  register-IsIndexed (some def) r indexed = register_locked-IsIndexed def r indexed

  pub register_with_source-IsIndexed :
      (def : Option (AgentDefinition S)) (path : String) (r : AgentRegistry S)
      → IsIndexed S r
      → IsIndexed S (register_with_source S def path r)
  unfolding register_with_source
  register_with_source-IsIndexed none path r indexed = indexed
  register_with_source-IsIndexed (some def) path r indexed =
      by_test (λ x. IsIndexed S x) (str_eq path "") _ _
        (λ _. register_locked-IsIndexed def r indexed)
        (λ _. register_locked-IsIndexed def r indexed)
