-- ===== src/Prelude/Maps.antt =====
-- Go's map[string]V as an association list. The order of the list is the order in which `range`
-- visits the keys, which Go leaves open.
use Prim.Native.Nat.{suc, ◌≤◌}
use Prim.Native.String.{String}
use mathlib.Core.Path.{◌≡◌, refl, subst, ap, ◌∙◌}
use mathlib.Core.Bool.{Bool, false, true}
use mathlib.Core.List.{List, [], ◌∷◌}
use mathlib.Core.Logic.{inl, inr}
use mathlib.Core.Option.{Option, none, some}
use native.Mathlib.Omega.{arith}
use text.Mathlib.TextEquality.{eq_iff}
use text.Mathlib.TextPositions.{eq_refl}
use mock_agents.Prelude.Tests.{str_eq, if◌then◌else◌, Bool-cases}
use mock_agents.Prelude.Lists.{length, All}

pub record Entry {ℓ} (V : Type ℓ) : Type ℓ where
  pub key : String
  pub val : V

abbrev pub Assoc {ℓ} : Type ℓ → Type ℓ
Assoc V = List (Entry V)

module _ {ℓ} {V : Type ℓ} where
  abbrev pub at_key : String → V → Entry V
  at_key name value = record { key = name; val = value }

  -- `v, ok := m[k]`
  unfoldable pub lookup : String → Assoc V → Option V
  lookup k [] = none
  lookup k (e ∷ rest) = if str_eq e.key k then some e.val else lookup k rest

  -- `_, ok := m[k]`
  unfoldable pub has : String → Assoc V → Bool
  has k [] = false
  has k (e ∷ rest) = if str_eq e.key k then true else has k rest

  -- `m[k] = v`
  unfoldable pub insert : String → V → Assoc V → Assoc V
  insert k v [] = at_key k v ∷ []
  insert k v (e ∷ rest) = if str_eq e.key k then at_key k v ∷ rest else e ∷ insert k v rest

  -- `delete(m, k)`
  unfoldable pub delete : String → Assoc V → Assoc V
  delete k [] = []
  delete k (e ∷ rest) = let others = delete k rest in if str_eq e.key k then others else e ∷ others

  pub lookup-insert :
      (written read : String) (v : V) (table : Assoc V)
      → lookup read (insert written v table)
        ≡ (if str_eq written read then some v else lookup read table)
  unfolding lookup insert
  lookup-insert written read v [] = refl
  lookup-insert written read v (e ∷ rest) = ground (
    arith,
    lookup-insert written read v rest,
    eq_iff written read,
    eq_iff e.key written,
    eq_iff e.key read,
  )

  pub lookup-insert_self :
      (k : String) (v : V) (table : Assoc V) → lookup k (insert k v table) ≡ some v
  lookup-insert_self k v table = rw (lookup-insert k k v table, eq_refl k)

  pub lookup-delete :
      (gone read : String) (table : Assoc V)
      → lookup read (delete gone table) ≡ (if str_eq gone read then none else lookup read table)
  unfolding lookup delete
  lookup-delete gone read [] = ground arith
  lookup-delete gone read (e ∷ rest) =
      ground (
        arith,
        lookup-delete gone read rest,
        eq_iff gone read,
        eq_iff e.key gone,
        eq_iff e.key read,
      )

  -- Writing a key that is there keeps the size, a new key adds one.
  pub lookup-insert_other :
      (written read : String) (v : V) (table : Assoc V)
      → str_eq written read ≡ false
      → lookup read (insert written v table) ≡ lookup read table
  lookup-insert_other written read v table other =
      lookup-insert written read v table ∙ ap (λ b. if b then some v else lookup read table) other

  pub lookup-delete_self : (k : String) (table : Assoc V) → lookup k (delete k table) ≡ none
  lookup-delete_self k table = rw (lookup-delete k k table, eq_refl k)

  pub lookup-delete_other :
      (gone read : String) (table : Assoc V)
      → str_eq gone read ≡ false
      → lookup read (delete gone table) ≡ lookup read table
  lookup-delete_other gone read table other =
      lookup-delete gone read table ∙ ap (λ b. if b then none else lookup read table) other

  pub length-insert :
      (k : String) (v : V) (table : Assoc V)
      → length (insert k v table) ≡ (if has k table then length table else suc (length table))
  unfolding has insert
  length-insert k v [] = refl
  length-insert k v (e ∷ rest) = ground (arith, length-insert k v rest)

  pub length-delete-le : (k : String) (table : Assoc V) → length (delete k table) ≤ length table
  unfolding delete
  length-delete-le k [] = omega arith
  length-delete-le k (e ∷ rest) = ground (arith, length-delete-le k rest)

  pub has-lookup :
      (k : String) (table : Assoc V)
      → has k table ≡ elim (lookup k table) [ none ↦ false | some _ ↦ true ]
  unfolding has lookup
  has-lookup k [] = refl
  has-lookup k (e ∷ rest) = ground (arith, has-lookup k rest)

  -- What holds of every value holds of one that is looked up.
  pub lookup-All {κ} :
      (P : V → Type κ) (k : String) (table : Assoc V) (v : V)
      → All (λ (e : Entry V). P e.val) table
      → lookup k table ≡ some v
      → P v
  unfolding lookup
  lookup-All P k [] v all found = cc
  lookup-All P k (e ∷ rest) v all found = elim (Bool-cases (str_eq e.key k)) [
    | inl hit ↦
        let same : some e.val ≡ some v = rw hit at found in
        let value : e.val ≡ v = cc in subst P value all.0
    | inr miss ↦ lookup-All P k rest v all.1 (rw miss at found)
  ]
