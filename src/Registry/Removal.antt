-- ===== src/Registry/Removal.antt =====
-- internal/engine/agent_registry.go: the removals.
pub mod Loop
pub mod Effect
use mock_agents.Prelude.{
  Bool, true, false, ◌&&◌, ◌||◌, String, Option, none, some, List, [], ◌∷◌, if◌then◌else◌, str_eq,
  Assoc, Entry, lookup, insert, delete, has, ◌≡◌, refl, sym, ap, ◌∙◌, ◌⊎◌, ◌↔◌, inl, inr, In,
  Bool-cases, Distinct, delete-Distinct, str_eq→eq, str_eq_refl, by_test, subst, some-injective,
  Option-cases,
}
use mock_agents.Registry.{
  AgentDefinition, AgentRegistry, Bucket, bucket_of, put_bucket, rebuild_model_bucket, rebuild_all,
  drop_agent, remove_loop, remove, remove_for_tenant,
}
use mock_agents.Registry.Buckets.{find, bucket_of-put, find-drop, put_bucket-Distinct}
use mock_agents.Registry.Fresh.{
  Stored, Fresh, IsIndexed, Agree, Agree-Fresh, rebuild_all-Stored, rebuild_all-Fresh,
}
use mock_agents.Registry.Register.{Skips, Skips-other, write-Agree, write-keyed}

module _ (S : Type 0) where
  -- What an agent's removal does to the agents.
  pub drop_agent-Stored :
      (owner name : String) (def : AgentDefinition S) (r : AgentRegistry S)
      → Stored S r.agents
      → Stored S (drop_agent S owner name def (bucket_of owner r.agents) r).agents
  drop_agent-Stored owner name def r stored = (
    put_bucket-Distinct owner _ r.agents stored.0,
    (λ o.
        subst (λ b. Distinct b)
          (sym (bucket_of-put owner o (delete name (bucket_of owner r.agents)) r.agents))
          (by_test (λ b. Distinct b) (str_eq owner o) _ _
            (λ _. delete-Distinct name (bucket_of owner r.agents) (stored.1 owner))
            (λ _. stored.1 o))),
    write-keyed S owner name none r.agents
        (drop_agent S owner name def (bucket_of owner r.agents) r).agents
        (λ o n. find-drop owner name o n r.agents) (λ d h. absurd (cc h)) stored,
  )

  pub drop_agent-Fresh :
      (owner name : String) (def : AgentDefinition S) (r : AgentRegistry S) (model : String)
      → find owner name r.agents ≡ some def
      → str_eq model def.model ≡ false
      → Fresh S model r
      → Fresh S model (drop_agent S owner name def (bucket_of owner r.agents) r)
  drop_agent-Fresh owner name def r model found other fresh =
      Agree-Fresh S model r (drop_agent S owner name def (bucket_of owner r.agents) r)
        (write-Agree S model owner name none r.agents
          (drop_agent S owner name def (bucket_of owner r.agents) r).agents
          (λ o n. find-drop owner name o n r.agents) (λ d h. absurd (cc h))
          (subst (λ x. Skips S model x) (sym found) (Skips-other S model def other)))
        refl fresh

  -- One removal with its rebuild.
  dropped-IsIndexed :
      (owner name : String) (def : AgentDefinition S) (r : AgentRegistry S)
      → find owner name r.agents ≡ some def
      → IsIndexed S r
      → IsIndexed S (
          rebuild_all S (def.model ∷ []) (drop_agent S owner name def (bucket_of owner r.agents) r))
  dropped-IsIndexed owner name def r found indexed =
      let dropped = drop_agent S owner name def (bucket_of owner r.agents) r in
      let stored = drop_agent-Stored owner name def r indexed.0 in
      (
        rebuild_all-Stored S (def.model ∷ []) dropped stored,
        (λ model proper.
            rebuild_all-Fresh S (def.model ∷ []) model dropped stored proper
              (elim (Bool-cases (str_eq model def.model)) [
                | inl same ↦ inl (inl (str_eq→eq model def.model same))
                | inr other ↦
                    inr
                      (drop_agent-Fresh owner name def r model found other (indexed.1 model proper))
              ])),
      )

  pub remove_for_tenant-IsIndexed :
      (name tenant : String) (r later : AgentRegistry S)
      → IsIndexed S r
      → remove_for_tenant S name tenant r ≡ some later
      → IsIndexed S later
  unfolding remove_for_tenant rebuild_all
  remove_for_tenant-IsIndexed name tenant r later indexed h =
      elim (Option-cases (find tenant name r.agents)) [
        | inl nothing ↦ absurd (
            cc (
              sym (
                ap
                  (λ o. elim o as (λ _. Option (AgentRegistry S)) [
                    | none ↦ none
                    | some def ↦ some (
                        rebuild_model_bucket S def.model
                          (drop_agent S tenant name def (bucket_of tenant r.agents) r))
                  ])
                  nothing)
              ∙ h))
        | inr (def, found) ↦
            subst (λ x. IsIndexed S x)
              (some-injective
                (rebuild_model_bucket S def.model
                  (drop_agent S tenant name def (bucket_of tenant r.agents) r))
                later
                (sym (
                    ap
                      (λ o. elim o as (λ _. Option (AgentRegistry S)) [
                        | none ↦ none
                        | some d ↦ some (
                            rebuild_model_bucket S d.model
                              (drop_agent S tenant name d (bucket_of tenant r.agents) r))
                      ])
                      found)
                  ∙ h))
              (dropped-IsIndexed tenant name def r found indexed)
      ]

  -- The buckets that the loop has still to meet are as they were.
  abbrev Follows : Assoc (Bucket S) → AgentRegistry S → Type 0
  Follows ags r = (o : String) → has o ags ≡ true → bucket_of o r.agents ≡ bucket_of o ags

  skip_first :
      (e : Entry (Bucket S)) (rest : Assoc (Bucket S)) (o : String)
      → has e.key rest ≡ false
      → has o rest ≡ true
      → str_eq e.key o ≡ false
  skip_first e rest o gone here = elim (Bool-cases (str_eq e.key o)) [
    | inl same ↦ absurd (cc (sym gone ∙ ap (λ k. has k rest) (str_eq→eq e.key o same) ∙ here))
    | inr other ↦ other
  ]

  Follows-tail :
      (e : Entry (Bucket S)) (rest : Assoc (Bucket S)) (r : AgentRegistry S)
      → Distinct (e ∷ rest)
      → Follows (e ∷ rest) r
      → Follows rest r
  unfolding has lookup
  Follows-tail e rest r distinct follows o here =
      let other = skip_first e rest o distinct.0 here in
      follows o (ap (λ b. if b then true else has o rest) other ∙ here)
      ∙ ap
          (λ b. elim (if b then some e.val else lookup o rest) as (λ _. Bucket S) [
            | none ↦ []
            | some x ↦ x
          ])
          other

  Follows-head :
      (e : Entry (Bucket S)) (rest : Assoc (Bucket S)) (r : AgentRegistry S)
      → Follows (e ∷ rest) r
      → bucket_of e.key r.agents ≡ e.val
  unfolding has lookup
  Follows-head e rest r follows =
      follows e.key (ap (λ b. if b then true else has e.key rest) (str_eq_refl e.key))
      ∙ ap
          (λ b. elim (if b then some e.val else lookup e.key rest) as (λ _. Bucket S) [
            | none ↦ []
            | some x ↦ x
          ])
          (str_eq_refl e.key)

  Follows-drop :
      (e : Entry (Bucket S)) (rest : Assoc (Bucket S)) (r : AgentRegistry S) (name : String)
      (def : AgentDefinition S)
      → Distinct (e ∷ rest)
      → Follows (e ∷ rest) r
      → Follows rest (drop_agent S e.key name def (bucket_of e.key r.agents) r)
  Follows-drop e rest r name def distinct follows o here =
      bucket_of-put e.key o (delete name (bucket_of e.key r.agents)) r.agents
      ∙ ap (λ b. if b then delete name (bucket_of e.key r.agents) else bucket_of o r.agents)
          (skip_first e rest o distinct.0 here)
      ∙ Follows-tail e rest r distinct follows o here

  -- What the loop leaves: agents under their keys, only met models stale, and no agent of the name.
  abbrev Left :
      String
      → Assoc (Bucket S)
      → AgentRegistry S
      → List String
      → AgentRegistry S × List String × Bool
      → Type 0
  Left name ags r models out =
      Stored S out.0.agents
      × ((model : String)
          → str_eq model "" ≡ false
          → In model models ⊎ Fresh S model r
          → In model out.1 ⊎ Fresh S model out.0)
      × ((o n : String)
          → find o n out.0.agents
            ≡ (if has o ags && str_eq name n then none else find o n r.agents))

  abbrev next_models : AgentDefinition S → List String → List String
  next_models def models = if str_eq def.model "" then models else def.model ∷ models

  next_models-In :
      (def : AgentDefinition S) (models : List String) (model : String)
      → str_eq model "" ≡ false
      → (model ≡ def.model) ⊎ In model models
      → In model (next_models def models)
  next_models-In def models model proper h = elim h [
    | inl here ↦
        by_test (λ ms. In model ms) (str_eq def.model "") models (def.model ∷ models)
          (λ empty. absurd (cc (sym (ap (λ m. str_eq m "") here ∙ empty) ∙ proper))) (λ _. inl here)
    | inr there ↦
        by_test (λ ms. In model ms) (str_eq def.model "") models (def.model ∷ models) (λ _. there)
          (λ _. inr there)
  ]
