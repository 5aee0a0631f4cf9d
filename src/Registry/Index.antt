-- ===== src/Registry/Index.antt =====
-- internal/engine/agent_registry.go: what the index by model and tenant has to say, and that a
-- rebuild says it.
use mock_agents.Prelude.{
  String, none, some, [], ◌∷◌, if◌then◌else◌, str_eq, Assoc, lookup, insert, ◌≡◌, refl, sym, ap,
  ◌∙◌, inl, inr, Bool-cases, Distinct, lookup-insert, str_eq→eq, by_test, absent_lookup,
}
use mock_agents.Registry.{AgentDefinition, Bucket, bucket_of, smaller, scan_bucket, scan_agents}
use mock_agents.Registry.Smallest.{better, smallest}

module _ (S : Type 0) where
  better-insert :
      (model owner o : String) (d : AgentDefinition S) (owners : Bucket S)
      → lookup o (
          if str_eq d.model model
          then insert owner (smaller S (lookup owner owners) d) owners
          else owners)
        ≡ (if str_eq owner o then better S model (lookup o owners) d else lookup o owners)
  better-insert model owner o d owners = elim (Bool-cases (str_eq d.model model)) [
    | inl same ↦
        ap
          (λ b.
            lookup o
              (if b then insert owner (smaller S (lookup owner owners) d) owners else owners))
          same
        ∙ lookup-insert owner o (smaller S (lookup owner owners) d) owners
        ∙ (elim (Bool-cases (str_eq owner o)) [
          | inl own ↦
              ap (λ b. if b then some (smaller S (lookup owner owners) d) else lookup o owners) own
              ∙ ap (λ k. some (smaller S (lookup k owners) d)) (str_eq→eq owner o own)
              ∙ ap (λ b. if b then some (smaller S (lookup o owners) d) else lookup o owners)
                  (sym same)
              ∙ ap (λ b. if b then better S model (lookup o owners) d else lookup o owners)
                  (sym own)
          | inr foreign ↦
              ap (λ b. if b then some (smaller S (lookup owner owners) d) else lookup o owners)
                foreign
              ∙ ap (λ b. if b then better S model (lookup o owners) d else lookup o owners)
                  (sym foreign)
        ])
    | inr other ↦
        ap
          (λ b.
            lookup o
              (if b then insert owner (smaller S (lookup owner owners) d) owners else owners))
          other
        ∙ by_test (λ x. lookup o owners ≡ x) (str_eq owner o) (better S model (lookup o owners) d)
            (lookup o owners)
            (λ _.
              ap (λ b. if b then some (smaller S (lookup o owners) d) else lookup o owners)
                (sym other))
            (λ _. refl)
  ]

  pub lookup-scan_bucket :
      (model owner o : String) (bucket owners : Bucket S)
      → lookup o (scan_bucket S model owner bucket owners)
        ≡ (if str_eq owner o then smallest S model (lookup o owners) bucket else lookup o owners)
  unfolding scan_bucket smallest
  lookup-scan_bucket model owner o [] owners =
      by_test (λ x. lookup o owners ≡ x) (str_eq owner o) (lookup o owners) (lookup o owners)
        (λ _. refl) (λ _. refl)
  lookup-scan_bucket model owner o (e ∷ rest) owners =
      lookup-scan_bucket model owner o rest (
        if str_eq e.val.model model
        then insert owner (smaller S (lookup owner owners) e.val) owners
        else owners)
      ∙ ap (λ acc. if str_eq owner o then smallest S model acc rest else acc)
          (better-insert model owner o e.val owners)
      ∙ (elim (Bool-cases (str_eq owner o)) [
        | inl own ↦ rw own refl
        | inr foreign ↦ rw foreign refl
      ])

  pub lookup-scan_agents :
      (model o : String) (agents : Assoc (Bucket S)) (owners : Bucket S)
      → Distinct agents
      → lookup o (scan_agents S model agents owners)
        ≡ smallest S model (lookup o owners) (bucket_of o agents)
  unfolding scan_agents smallest lookup
  lookup-scan_agents model o [] owners d = refl
  lookup-scan_agents model o (e ∷ rest) owners d =
      lookup-scan_agents model o rest (scan_bucket S model e.key e.val owners) d.1
      ∙ ap (λ acc. smallest S model acc (bucket_of o rest))
          (lookup-scan_bucket model e.key o e.val owners)
      ∙ (elim (Bool-cases (str_eq e.key o)) [
        | inl own ↦
            let gone : bucket_of o rest ≡ [] =
              ap (λ x. elim x as (λ _. Bucket S) [ none ↦ [] | some b ↦ b ])
                (ap (λ k. lookup k rest) (sym (str_eq→eq e.key o own))
                  ∙ absent_lookup e.key rest d.0) in
            ap
              (λ b.
                smallest S model
                  (if b then smallest S model (lookup o owners) e.val else lookup o owners)
                  (bucket_of o rest))
              own
            ∙ ap (λ b. smallest S model (smallest S model (lookup o owners) e.val) b) gone
            ∙ ap
                (λ b.
                  smallest S model (lookup o owners)
                    (elim (if b then some e.val else lookup o rest) as (λ _. Bucket S) [
                      | none ↦ []
                      | some x ↦ x
                    ]))
                (sym own)
        | inr foreign ↦
            ap
              (λ b.
                smallest S model
                  (if b then smallest S model (lookup o owners) e.val else lookup o owners)
                  (bucket_of o rest))
              foreign
            ∙ ap
                (λ b.
                  smallest S model (lookup o owners)
                    (elim (if b then some e.val else lookup o rest) as (λ _. Bucket S) [
                      | none ↦ []
                      | some x ↦ x
                    ]))
                (sym foreign)
      ])
