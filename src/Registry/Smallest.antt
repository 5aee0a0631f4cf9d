-- ===== src/Registry/Smallest.antt =====
-- internal/engine/agent_registry.go: what one scan of a bucket finds.
use mock_agents.Prelude.{
  true, false, String, Option, none, some, [], ◌∷◌, if◌then◌else◌, str_eq, str_lt, Entry, ◌≡◌, refl,
  sym, ap, ◌∙◌, ◌⊎◌, inl, inr, In, Bool-cases, str_lt_irrefl, str_lt_asym, str_ge_trans, str_eq→eq,
  str_eq_refl, some-injective,
}
use mock_agents.Registry.{AgentDefinition, Bucket, smaller}

module _ (S : Type 0) where
  abbrev pub better :
      String → Option (AgentDefinition S) → AgentDefinition S → Option (AgentDefinition S)
  better model acc def = if str_eq def.model model then some (smaller S acc def) else acc

  -- The winner of a bucket, from the winner so far.
  unfoldable pub smallest :
      String → Option (AgentDefinition S) → Bucket S → Option (AgentDefinition S)
  smallest model acc [] = acc
  smallest model acc (e ∷ rest) = smallest model (better model acc e.val) rest

  -- `d` is an agent of the bucket that serves the model.
  abbrev pub Serves : String → Bucket S → AgentDefinition S → Type 0
  Serves model bucket d =
      (e : Entry (AgentDefinition S)) × In e bucket × (e.val ≡ d) × (d.model ≡ model)

  -- A winner whose name is not after that of `d`.
  abbrev pub Bounds : Option (AgentDefinition S) → AgentDefinition S → Type 0
  Bounds o d = (w : AgentDefinition S) × (o ≡ some w) × (str_lt d.name w.name ≡ false)

  smaller-bounds_acc :
      (cur def : AgentDefinition S) → str_lt cur.name (smaller S (some cur) def).name ≡ false
  smaller-bounds_acc cur def = elim (Bool-cases (str_lt def.name cur.name)) [
    | inl less ↦ rw less (str_lt_asym def.name cur.name less)
    | inr other ↦ rw other (str_lt_irrefl cur.name)
  ]

  smaller-bounds_new :
      (acc : Option (AgentDefinition S)) (def : AgentDefinition S)
      → str_lt def.name (smaller S acc def).name ≡ false
  smaller-bounds_new none def = str_lt_irrefl def.name
  smaller-bounds_new (some cur) def = elim (Bool-cases (str_lt def.name cur.name)) [
    | inl less ↦ rw less (str_lt_irrefl def.name)
    | inr other ↦ rw other other
  ]

  below_bound :
      (o : Option (AgentDefinition S)) (d c : AgentDefinition S)
      → str_lt d.name c.name ≡ false
      → Bounds o c
      → Bounds o d
  below_bound o d c h b = (b.0, b.1, str_ge_trans d.name c.name b.0.name h b.2)

  pub smallest-Bounds_acc :
      (model : String) (bucket : Bucket S) (acc : Option (AgentDefinition S))
      (d : AgentDefinition S)
      → acc ≡ some d
      → Bounds (smallest model acc bucket) d
  unfolding smallest
  smallest-Bounds_acc model [] acc d h = (d, h, str_lt_irrefl d.name)
  smallest-Bounds_acc model (e ∷ rest) acc d h = elim (Bool-cases (str_eq e.val.model model)) [
    | inl same ↦
        below_bound (smallest model (better model acc e.val) rest) d (smaller S (some d) e.val)
          (smaller-bounds_acc d e.val)
          (smallest-Bounds_acc model rest (better model acc e.val) (smaller S (some d) e.val) (
            ap (λ b. if b then some (smaller S acc e.val) else acc) same
            ∙ ap (λ o. some (smaller S o e.val)) h))
    | inr other ↦
        smallest-Bounds_acc model rest (better model acc e.val) d
          (ap (λ b. if b then some (smaller S acc e.val) else acc) other ∙ h)
  ]

  pub smallest-Bounds :
      (model : String) (bucket : Bucket S) (acc : Option (AgentDefinition S))
      (d : AgentDefinition S)
      → Serves model bucket d
      → Bounds (smallest model acc bucket) d
  unfolding smallest
  smallest-Bounds model [] acc d h = absurd h.1
  smallest-Bounds model (e ∷ rest) acc d h = elim h.1 [
    | inl here ↦
        let same : e.val ≡ d = sym (ap (λ (x : Entry (AgentDefinition S)). x.val) here) ∙ h.2 in
        let serves : str_eq e.val.model model ≡ true =
          ap (λ (x : AgentDefinition S). str_eq x.model model) same
          ∙ ap (λ m. str_eq m model) h.3
          ∙ str_eq_refl model in
        below_bound (smallest model (better model acc e.val) rest) d (smaller S acc e.val)
          (ap (λ (x : AgentDefinition S). str_lt x.name (smaller S acc e.val).name) (sym same)
            ∙ smaller-bounds_new acc e.val)
          (smallest-Bounds_acc model rest (better model acc e.val) (smaller S acc e.val)
            (ap (λ b. if b then some (smaller S acc e.val) else acc) serves))
    | inr there ↦ smallest-Bounds model rest (better model acc e.val) d (h.0, there, h.2, h.3)
  ]

  smaller-from :
      (acc : Option (AgentDefinition S)) (def : AgentDefinition S)
      → (acc ≡ some (smaller S acc def)) ⊎ (def ≡ smaller S acc def)
  smaller-from none def = inr refl
  smaller-from (some cur) def = elim (Bool-cases (str_lt def.name cur.name)) [
    | inl less ↦ inr (ap (λ b. if b then def else cur) (sym less))
    | inr other ↦ inl (ap (λ b. some (if b then def else cur)) (sym other))
  ]

  pub smallest-from :
      (model : String) (bucket : Bucket S) (acc : Option (AgentDefinition S))
      (w : AgentDefinition S)
      → smallest model acc bucket ≡ some w
      → (acc ≡ some w) ⊎ Serves model bucket w
  unfolding smallest
  smallest-from model [] acc w h = inl h
  smallest-from model (e ∷ rest) acc w h =
      elim (smallest-from model rest (better model acc e.val) w h) [
        | inl before ↦ elim (Bool-cases (str_eq e.val.model model)) [
          | inl same ↦
              let chosen : some (smaller S acc e.val) ≡ some w =
                sym (ap (λ b. if b then some (smaller S acc e.val) else acc) same) ∙ before in
              (elim (smaller-from acc e.val) [
                | inl old ↦ inl (old ∙ chosen)
                | inr new ↦
                    let is_w : e.val ≡ w = new ∙ some-injective (smaller S acc e.val) w chosen in
                    inr (
                      e,
                      inl refl,
                      is_w,
                      ap (λ (x : AgentDefinition S). x.model) (sym is_w)
                          ∙ str_eq→eq e.val.model model same,
                    )
              ])
          | inr other ↦
              inl (sym (ap (λ b. if b then some (smaller S acc e.val) else acc) other) ∙ before)
        ]
        | inr serves ↦ inr (serves.0, inr serves.1, serves.2, serves.3)
      ]
