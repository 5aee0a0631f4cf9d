-- ===== src/Prelude/Keys.antt =====
-- Maps whose keys are distinct, as those of every Go map are.
use mathlib.Core.Path.{◌≡◌, refl, sym, ap, ◌∙◌}
use mathlib.Core.Logic.{inl, inr}
use mathlib.Core.Bool.{true, false}
use mathlib.Core.List.{[], ◌∷◌}
use mathlib.Core.Option.{none, some}
use native.Mathlib.Omega.{arith}
use text.Mathlib.TextEquality.{eq_iff}
use Prim.Native.String.{String}
use mock_agents.Prelude.Tests.{
  str_eq, str_eq_refl, str_eq→eq, if◌then◌else◌, Bool-cases, some-injective,
}
use mock_agents.Prelude.Lists.{In}
use mock_agents.Prelude.Maps.{Entry, Assoc, lookup, has, insert, delete}

module _ {ℓ} {V : Type ℓ} where
  abbrev pub Distinct : Assoc V → Type 0
  Distinct [] = Unit
  Distinct (e ∷ rest) = (has e.key rest ≡ false) × Distinct rest

  pub has-insert :
      (k j : String) (v : V) (t : Assoc V)
      → has j (insert k v t) ≡ (if str_eq k j then true else has j t)
  unfolding has insert
  has-insert k j v [] = refl
  has-insert k j v (e ∷ rest) =
      ground (arith, has-insert k j v rest, eq_iff k j, eq_iff e.key k, eq_iff e.key j)

  pub has-delete :
      (k j : String) (t : Assoc V) → has j (delete k t) ≡ (if str_eq k j then false else has j t)
  unfolding has delete
  has-delete k j [] = ground arith
  has-delete k j (e ∷ rest) =
      ground (arith, has-delete k j rest, eq_iff k j, eq_iff e.key k, eq_iff e.key j)

  pub insert-Distinct : (k : String) (v : V) (t : Assoc V) → Distinct t → Distinct (insert k v t)
  unfolding insert has
  insert-Distinct k v [] d = (refl, tt)
  insert-Distinct k v (e ∷ rest) d = elim (Bool-cases (str_eq e.key k)) [
    | inl same ↦ rw same (ground (arith, d.0, eq_iff e.key k), d.1)
    | inr other ↦ rw other (
      ground (arith, has-insert k e.key v rest, eq_iff k e.key, eq_iff e.key k, d.0),
      insert-Distinct k v rest d.1,
    )
  ]

  pub delete-Distinct : (k : String) (t : Assoc V) → Distinct t → Distinct (delete k t)
  unfolding delete
  delete-Distinct k [] d = tt
  delete-Distinct k (e ∷ rest) d = elim (Bool-cases (str_eq e.key k)) [
    | inl same ↦ rw same (delete-Distinct k rest d.1)
    | inr other ↦
        rw other (ground (arith, has-delete k e.key rest, d.0), delete-Distinct k rest d.1)
  ]

  pub absent_lookup : (k : String) (t : Assoc V) → has k t ≡ false → lookup k t ≡ none
  unfolding has lookup
  absent_lookup k [] h = refl
  absent_lookup k (e ∷ rest) h = elim (Bool-cases (str_eq e.key k)) [
    | inl same ↦ absurd (cc (sym (ap (λ b. if b then true else has k rest) same) ∙ h))
    | inr other ↦
        ap (λ b. if b then some e.val else lookup k rest) other
        ∙ absent_lookup k rest (sym (ap (λ b. if b then true else has k rest) other) ∙ h)
  ]

module _ {A : Type 0} where
  found_has : (k : String) (t : Assoc A) (v : A) → lookup k t ≡ some v → has k t ≡ true
  found_has k t v h = elim (Bool-cases (has k t)) [
    | inl present ↦ present
    | inr absent ↦ absurd (cc (sym (absent_lookup k t absent) ∙ h))
  ]

  pub lookup-In : (e : Entry A) (t : Assoc A) → Distinct t → In e t → lookup e.key t ≡ some e.val
  unfolding lookup
  lookup-In e [] d h = absurd h
  lookup-In e (x ∷ rest) d h = elim h [
    | inl here ↦
        ap (λ (y : Entry A). lookup y.key (x ∷ rest)) here
        ∙ ap (λ b. if b then some x.val else lookup x.key rest) (str_eq_refl x.key)
        ∙ ap (λ (y : Entry A). some y.val) (sym here)
    | inr there ↦ elim (Bool-cases (str_eq x.key e.key)) [
      | inl same ↦ absurd (
          cc (
            sym d.0
            ∙ ap (λ k. has k rest) (str_eq→eq x.key e.key same)
            ∙ found_has e.key rest e.val (lookup-In e rest d.1 there)))
      | inr other ↦
          ap (λ b. if b then some x.val else lookup e.key rest) other ∙ lookup-In e rest d.1 there
    ]
  ]

  pub In-lookup :
      (k : String) (t : Assoc A) (v : A)
      → lookup k t ≡ some v
      → (e : Entry A) × In e t × (e.val ≡ v)
  unfolding lookup
  In-lookup k [] v h = absurd (cc h)
  In-lookup k (x ∷ rest) v h = elim (Bool-cases (str_eq x.key k)) [
    | inl same ↦ (
      x,
      inl refl,
      some-injective x.val v (sym (ap (λ b. if b then some x.val else lookup k rest) same) ∙ h),
    )
    | inr other ↦
        let found =
          In-lookup k rest v (sym (ap (λ b. if b then some x.val else lookup k rest) other) ∙ h) in
        (found.0, inr found.1, found.2)
  ]
