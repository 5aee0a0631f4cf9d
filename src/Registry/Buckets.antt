-- ===== src/Registry/Buckets.antt =====
-- internal/engine/agent_registry.go: the maps of maps, read through one write.
use mock_agents.Prelude.{
  has, absent_lookup, false, ◌&&◌, String, Option, none, some, [], ◌∷◌, if◌then◌else◌, ◌==◌, str_eq,
  Assoc, Entry, lookup, insert, delete, length, ◌≡◌, refl, sym, ap, ◌∙◌, inl, inr, Bool-cases,
  Distinct, insert-Distinct, delete-Distinct, lookup-insert, lookup-delete, str_eq→eq, arith,
  by_test,
}
use mock_agents.Registry.{bucket_of, put_bucket}

module _ {A : Type 0} where
  -- The value at two keys.
  abbrev pub find : String → String → Assoc (Assoc A) → Option A
  find owner name m = lookup name (bucket_of owner m)

  pub bucket_of-insert :
      (k j : String) (b : Assoc A) (m : Assoc (Assoc A))
      → bucket_of j (insert k b m) ≡ (if str_eq k j then b else bucket_of j m)
  bucket_of-insert k j b m =
      ap (λ o. elim o as (λ _. Assoc A) [ none ↦ [] | some x ↦ x ]) (lookup-insert k j b m)
      ∙ (elim (Bool-cases (str_eq k j)) [ inl same ↦ rw same refl | inr other ↦ rw other refl ])

  pub bucket_of-delete :
      (k j : String) (m : Assoc (Assoc A))
      → bucket_of j (delete k m) ≡ (if str_eq k j then [] else bucket_of j m)
  bucket_of-delete k j m =
      ap (λ o. elim o as (λ _. Assoc A) [ none ↦ [] | some x ↦ x ]) (lookup-delete k j m)
      ∙ (elim (Bool-cases (str_eq k j)) [ inl same ↦ rw same refl | inr other ↦ rw other refl ])

  -- Dropping an empty inner map does not change what is read.
  pub bucket_of-put :
      (k j : String) (b : Assoc A) (m : Assoc (Assoc A))
      → bucket_of j (put_bucket k b m) ≡ (if str_eq k j then b else bucket_of j m)
  bucket_of-put k j [] m = bucket_of-delete k j m
  bucket_of-put k j (e ∷ b) m =
      ap (λ t. bucket_of j (if t then delete k m else insert k (e ∷ b) m)) positive
      ∙ bucket_of-insert k j (e ∷ b) m
    where
      positive : (length (e ∷ b) == 0) ≡ false
      positive = ground arith

  pub find-put :
      (t k o n : String) (v : A) (m : Assoc (Assoc A))
      → find o n (insert t (insert k v (bucket_of t m)) m)
        ≡ (if str_eq t o && str_eq k n then some v else find o n m)
  find-put t k o n v m =
      ap (λ b. lookup n b) (bucket_of-insert t o (insert k v (bucket_of t m)) m)
      ∙ (elim (Bool-cases (str_eq t o)) [
        | inl same ↦ rw same (
            lookup-insert k n v (bucket_of t m)
            ∙ ap (λ x. if str_eq k n then some v else find x n m) (str_eq→eq t o same))
        | inr other ↦ rw other refl
      ])

  pub find-drop :
      (t k o n : String) (m : Assoc (Assoc A))
      → find o n (put_bucket t (delete k (bucket_of t m)) m)
        ≡ (if str_eq t o && str_eq k n then none else find o n m)
  find-drop t k o n m =
      ap (λ b. lookup n b) (bucket_of-put t o (delete k (bucket_of t m)) m)
      ∙ (elim (Bool-cases (str_eq t o)) [
        | inl same ↦ rw same (
            lookup-delete k n (bucket_of t m)
            ∙ ap (λ x. if str_eq k n then none else find x n m) (str_eq→eq t o same))
        | inr other ↦ rw other refl
      ])

  pub put_bucket-Distinct :
      (k : String) (b : Assoc A) (m : Assoc (Assoc A)) → Distinct m → Distinct (put_bucket k b m)
  put_bucket-Distinct k b m d =
      by_test (λ x. Distinct x) (length b == 0) _ _ (λ _. delete-Distinct k m d)
        (λ _. insert-Distinct k b m d)

  pub find-cons :
      (e : Entry (Assoc A)) (rest : Assoc (Assoc A)) (o n : String)
      → find o n (e ∷ rest) ≡ (if str_eq e.key o then lookup n e.val else find o n rest)
  unfolding lookup
  find-cons e rest o n = elim (Bool-cases (str_eq e.key o)) [
    | inl own ↦
        ap
          (λ b. lookup n (elim (if b then some e.val else lookup o rest) as (λ _. Assoc A) [
            | none ↦ []
            | some x ↦ x
          ]))
          own
        ∙ ap (λ b. if b then lookup n e.val else find o n rest) (sym own)
    | inr other ↦
        ap
          (λ b. lookup n (elim (if b then some e.val else lookup o rest) as (λ _. Assoc A) [
            | none ↦ []
            | some x ↦ x
          ]))
          other
        ∙ ap (λ b. if b then lookup n e.val else find o n rest) (sym other)
  ]

  pub find-absent :
      (e : Entry (Assoc A)) (rest : Assoc (Assoc A)) (o n : String) (a : A)
      → has e.key rest ≡ false
      → find o n rest ≡ some a
      → str_eq e.key o ≡ false
  unfolding lookup
  find-absent e rest o n a gone found = elim (Bool-cases (str_eq e.key o)) [
    | inr other ↦ other
    | inl same ↦ absurd (
        cc (
          sym (
            ap (λ b. lookup n (elim b as (λ _. Assoc A) [ none ↦ [] | some x ↦ x ]))
              (ap (λ k. lookup k rest) (sym (str_eq→eq e.key o same))
                ∙ absent_lookup e.key rest gone))
          ∙ found))
  ]
