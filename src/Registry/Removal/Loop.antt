-- ===== src/Registry/Removal/Loop.antt =====
-- internal/engine/agent_registry.go: the loop of Remove over the tenants.
use mock_agents.Prelude.{
  Bool, true, false, ◌&&◌, String, Option, none, some, List, [], ◌∷◌, if◌then◌else◌, str_eq, Assoc,
  Entry, lookup, has, ◌≡◌, refl, sym, ap, ◌∙◌, inl, inr, Bool-cases, Distinct, str_eq→eq, by_test,
  subst, arith, str_eq_refl,
}
use mock_agents.Registry.{
  AgentDefinition, AgentRegistry, Bucket, bucket_of, drop_agent, remove_loop,
}
use mock_agents.Registry.Buckets.{find, find-drop, find-cons, find-absent}
use mock_agents.Registry.Fresh.{Stored}
use mock_agents.Registry.Removal.{
  Follows, Follows-head, Follows-tail, Follows-drop, Left, next_models, next_models-In,
  drop_agent-Stored, drop_agent-Fresh,
}

module _ (S : Type 0) where
  -- A step of the loop, by what the bucket has under the name.
  abbrev step :
      String
      → Entry (Bucket S)
      → Assoc (Bucket S)
      → AgentRegistry S
      → List String
      → Bucket S
      → Option (AgentDefinition S)
      → AgentRegistry S × List String × Bool
  step name e rest r models b none = remove_loop S name rest r models
  step name e rest r models b (some def) =
      let later =
        remove_loop S name rest (drop_agent S e.key name def b r) (next_models S def models) in
      (later.0, later.1, true)

  remove_loop-step :
      (name : String) (e : Entry (Bucket S)) (rest : Assoc (Bucket S)) (r : AgentRegistry S)
      (models : List String)
      → remove_loop S name (e ∷ rest) r models ≡ step name e rest r models e.val (lookup name e.val)
  unfolding remove_loop
  remove_loop-step name e rest r models = at_result (lookup name e.val)
    where
      at_result :
          (o : Option (AgentDefinition S))
          → (elim o as (λ _. AgentRegistry S × List String × Bool) [
            | none ↦ remove_loop S name rest r models
            | some def ↦
                let later =
                  remove_loop S name rest
                    (drop_agent S e.key name def e.val r)
                    (next_models S def models) in
                (later.0, later.1, true)
          ])
            ≡ step name e rest r models e.val o
      at_result none = refl
      at_result (some def) = refl

  removed_at :
      (name : String) (e : Entry (Bucket S)) (rest : Assoc (Bucket S)) (r : AgentRegistry S)
      (o n : String)
      → find e.key name r.agents ≡ none
      → (if has o rest && str_eq name n then none else find o n r.agents)
        ≡ (if has o (e ∷ rest) && str_eq name n then none else find o n r.agents)
  unfolding has
  removed_at name e rest r o n nothing = elim (Bool-cases (str_eq e.key o)) [
    | inr other ↦ rw other refl
    | inl own ↦ rw own (elim (Bool-cases (str_eq name n)) [
      | inr differs ↦ rw differs (
          by_test (λ x. x ≡ find o n r.agents) (has o rest && false) _ _
            (λ h. absurd (ground (arith, h))) (λ _. refl))
      | inl same ↦ rw same (
          by_test (λ x. x ≡ none) (has o rest && true) _ _ (λ _. refl)
            (λ _.
              ap (λ k. find k n r.agents) (sym (str_eq→eq e.key o own))
              ∙ ap (λ k. find e.key k r.agents) (sym (str_eq→eq name n same))
              ∙ nothing))
    ])
  ]

  removed_next :
      (name : String) (e : Entry (Bucket S)) (rest : Assoc (Bucket S))
      (x : Option (AgentDefinition S)) (o n : String)
      → (if has o rest && str_eq name n
          then none
          else (if str_eq e.key o && str_eq name n then none else x))
        ≡ (if has o (e ∷ rest) && str_eq name n then none else x)
  unfolding has
  removed_next name e rest x o n = elim (Bool-cases (str_eq e.key o)) [
    | inr other ↦ rw other refl
    | inl own ↦ rw own (elim (Bool-cases (str_eq name n)) [
      | inr differs ↦
          rw differs (elim (Bool-cases (has o rest)) [ inl h ↦ rw h refl | inr h ↦ rw h refl ])
      | inl same ↦
          rw same (elim (Bool-cases (has o rest)) [ inl h ↦ rw h refl | inr h ↦ rw h refl ])
    ])
  ]

  -- What the loop does, from what it does on the rest.
  skip-Left :
      (name : String) (e : Entry (Bucket S)) (rest : Assoc (Bucket S)) (r : AgentRegistry S)
      (models : List String) (out : AgentRegistry S × List String × Bool)
      → find e.key name r.agents ≡ none
      → Left S name rest r models out
      → Left S name (e ∷ rest) r models out
  skip-Left name e rest r models out nothing left =
      (left.0, left.1, (λ o n. left.2 o n ∙ removed_at name e rest r o n nothing))

  drop-Left :
      (name : String) (e : Entry (Bucket S)) (rest : Assoc (Bucket S)) (r : AgentRegistry S)
      (models : List String) (def : AgentDefinition S) (out : AgentRegistry S × List String × Bool)
      → find e.key name r.agents ≡ some def
      → Left S name rest
          (drop_agent S e.key name def (bucket_of e.key r.agents) r)
          (next_models S def models)
          out
      → Left S name (e ∷ rest) r models (out.0, out.1, true)
  drop-Left name e rest r models def out found left = (
    left.0,
    (λ model proper h. left.1 model proper (elim h [
      | inl met ↦ inl (next_models-In S def models model proper (inr met))
      | inr fresh ↦ elim (Bool-cases (str_eq model def.model)) [
        | inl same ↦
            inl (next_models-In S def models model proper (inl (str_eq→eq model def.model same)))
        | inr other ↦ inr (drop_agent-Fresh S e.key name def r model found other fresh)
      ]
    ])),
    (λ o n.
        left.2 o n
        ∙ ap (λ x. if has o rest && str_eq name n then none else x)
            (find-drop e.key name o n r.agents)
        ∙ removed_next name e rest (find o n r.agents) o n),
  )

  pub remove_loop-Left :
      (name : String) (ags : Assoc (Bucket S)) (r : AgentRegistry S) (models : List String)
      → Distinct ags
      → Follows S ags r
      → Stored S r.agents
      → Left S name ags r models (remove_loop S name ags r models)
  unfolding remove_loop has
  remove_loop-Left name [] r models distinct follows stored = (stored, (λ _ _ h. h), (λ _ _. refl))
  remove_loop-Left name (e ∷ rest) r models distinct follows stored =
      let head : bucket_of e.key r.agents ≡ e.val = Follows-head S e rest r follows in
      subst (λ out. Left S name (e ∷ rest) r models out)
        (sym (
          remove_loop-step name e rest r models
          ∙ ap (λ b. step name e rest r models b (lookup name b)) (sym head)))
        (at_result (lookup name (bucket_of e.key r.agents)) refl
          (λ q ms f k. remove_loop-Left name rest q ms distinct.1 f k))
    where
      at_result :
          (o : Option (AgentDefinition S))
          → find e.key name r.agents ≡ o
          → ((q : AgentRegistry S) (ms : List String)
              → Follows S rest q
              → Stored S q.agents
              → Left S name rest q ms (remove_loop S name rest q ms))
          → Left S name (e ∷ rest) r models (step name e rest r models (bucket_of e.key r.agents) o)
      at_result none nothing next =
          skip-Left name e rest r models (remove_loop S name rest r models) nothing
            (next r models (Follows-tail S e rest r distinct follows) stored)
      at_result (some def) found next =
          let dropped = drop_agent S e.key name def (bucket_of e.key r.agents) r in
          drop-Left name e rest r models def
            (remove_loop S name rest dropped (next_models S def models)) found
            (next dropped (next_models S def models)
              (Follows-drop S e rest r name def distinct follows)
              (drop_agent-Stored S e.key name def r stored))

  -- The loop reports no agent exactly when no tenant has one of the name.
  pub remove_loop-none :
      (name : String) (ags : Assoc (Bucket S)) (r : AgentRegistry S) (models : List String)
      → ((remove_loop S name ags r models).2 ≡ false)
      → Distinct ags
      → (o : String) → find o name ags ≡ none
  unfolding remove_loop lookup
  remove_loop-none name [] r models h distinct o = refl
  remove_loop-none name (e ∷ rest) r models h distinct o =
      at_result (lookup name e.val) refl
        (ap (λ (x : AgentRegistry S × List String × Bool). x.2)
            (sym (remove_loop-step name e rest r models))
          ∙ h)
        (λ missed. remove_loop-none name rest r models missed distinct.1 o)
    where
      at_result :
          (x : Option (AgentDefinition S))
          → lookup name e.val ≡ x
          → ((step name e rest r models e.val x).2 ≡ false)
          → (((remove_loop S name rest r models).2 ≡ false) → find o name rest ≡ none)
          → find o name (e ∷ rest) ≡ none
      at_result none nothing missed next =
          find-cons e rest o name
          ∙ by_test (λ y. y ≡ none) (str_eq e.key o) _ _ (λ _. nothing) (λ _. next missed)
      at_result (some def) found missed next = absurd (cc missed)

  pub remove_loop-some :
      (name : String) (ags : Assoc (Bucket S)) (r : AgentRegistry S) (models : List String)
      → ((remove_loop S name ags r models).2 ≡ true)
      → Distinct ags
      → (o : String) × (d : AgentDefinition S) × (find o name ags ≡ some d)
  unfolding remove_loop lookup
  remove_loop-some name [] r models h distinct = absurd (cc h)
  remove_loop-some name (e ∷ rest) r models h distinct =
      at_result (lookup name e.val) refl
        (ap (λ (x : AgentRegistry S × List String × Bool). x.2)
            (sym (remove_loop-step name e rest r models))
          ∙ h)
        (λ hit. remove_loop-some name rest r models hit distinct.1)
    where
      at_result :
          (x : Option (AgentDefinition S))
          → lookup name e.val ≡ x
          → ((step name e rest r models e.val x).2 ≡ true)
          → (((remove_loop S name rest r models).2 ≡ true)
              → (o : String) × (d : AgentDefinition S) × (find o name rest ≡ some d))
          → (o : String) × (d : AgentDefinition S) × (find o name (e ∷ rest) ≡ some d)
      at_result none nothing hit next =
          let later = next hit in
          (
            later.0,
            later.1,
            find-cons e rest later.0 name
                ∙ ap (λ b. if b then lookup name e.val else find later.0 name rest)
                    (find-absent e rest later.0 name later.1 distinct.0 later.2)
                ∙ later.2,
          )
      at_result (some def) found hit next = (
        e.key,
        def,
        find-cons e rest e.key name
            ∙ ap (λ b. if b then lookup name e.val else find e.key name rest) (str_eq_refl e.key)
            ∙ found,
      )
