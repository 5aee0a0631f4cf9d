-- ===== src/Recording/Index.antt =====
-- The index of a cassette by hashes against its list of interactions.
use mathlib.Core.List.{append_assoc}
use mock_agents.Prelude.{
  ℕ, zero, suc, ◌<◌, ◌==◌, false, ◌≢◌, ◌⊎◌, eq_iff, lt→==_false, arith, inl, inr, String, Option,
  none, some, List, [], ◌∷◌, ◌++◌, ◌≡◌, refl, sym, ap, ◌∙◌, if◌then◌else◌, str_eq, str_eq→eq,
  Bool-cases, Assoc, lookup, lookup-insert, lookup-insert_other,
}
use mock_agents.Recording.{
  Interaction, sequence_of, append_to, Cassette, new, completed, index_one, append_all, load,
  lookup_sequence,
}

pub append-nil : {A : Type 0} (ys : List A) → ys ++ [] ≡ ys
append-nil [] = refl
append-nil (y ∷ ys) = ap (λ r. y ∷ r) (append-nil ys)

module _ {A : Type 0} (f : A → String) where
  -- The elements with a key, in order.
  abbrev pub select : String → List A → List A
  select k [] = []
  select k (a ∷ as_) = if str_eq (f a) k then a ∷ select k as_ else select k as_

  select-append : (k : String) (xs ys : List A) → select k (xs ++ ys) ≡ select k xs ++ select k ys
  select-append k [] ys = refl
  select-append k (x ∷ xs) ys = elim (Bool-cases (str_eq (f x) k)) [
    | inl same ↦ rw same (ap (λ r. x ∷ r) (select-append k xs ys))
    | inr other ↦ rw other (select-append k xs ys)
  ]

  -- A map of slices that holds the elements of a list by their keys.
  abbrev pub Indexes : Assoc (List A) → List A → Type 0
  Indexes m xs = (k : String) → sequence_of k m ≡ select k xs

  pub Indexes-append_to :
      (m : Assoc (List A)) (xs : List A) (a : A)
      → Indexes m xs
      → Indexes (append_to (f a) a m) (xs ++ a ∷ [])
  Indexes-append_to m xs a h k = elim (Bool-cases (str_eq (f a) k)) [
    | inl same ↦
        ap (λ (o : Option (List A)). elim o as (λ _. List A) [ none ↦ [] | some s ↦ s ])
          (lookup-insert (f a) k (sequence_of (f a) m ++ a ∷ []) m
            ∙ ap (λ b. if b then some (sequence_of (f a) m ++ a ∷ []) else lookup k m) same)
        ∙ ap (λ s. s ++ a ∷ []) (ap (λ j. sequence_of j m) (str_eq→eq (f a) k same) ∙ h k)
        ∙ ap (λ b. select k xs ++ (if b then a ∷ [] else [])) (sym same)
        ∙ sym (select-append k xs (a ∷ []))
    | inr other ↦
        ap (λ (o : Option (List A)). elim o as (λ _. List A) [ none ↦ [] | some s ↦ s ])
          (lookup-insert_other (f a) k (sequence_of (f a) m ++ a ∷ []) m other)
        ∙ h k
        ∙ sym (append-nil (select k xs))
        ∙ ap (λ b. select k xs ++ (if b then a ∷ [] else [])) (sym other)
        ∙ sym (select-append k xs (a ∷ []))
  ]

module _ {B : Type 0} (hash_request : String → String → B → String) where
  abbrev pub Tape : Type 0
  Tape = Cassette hash_request

  abbrev hash_of : Interaction B → String
  hash_of it = it.hash

  abbrev pub IsIndexed : Tape → Type 0
  IsIndexed c = Indexes hash_of c.by_hash c.interactions

  abbrev pub all_completed : ℕ → List (Interaction B) → List (Interaction B)
  all_completed now [] = []
  all_completed now (it ∷ its) = completed hash_request now it ∷ all_completed now its

  pub append_all-interactions :
      (now : ℕ) (its : List (Interaction B)) (c : Tape)
      → (append_all hash_request now its c).interactions ≡ c.interactions ++ all_completed now its
  unfolding append_all
  append_all-interactions now [] c = sym (append-nil c.interactions)
  append_all-interactions now (it ∷ its) c =
      append_all-interactions now its (index_one hash_request (completed hash_request now it) c)
      ∙ append_assoc c.interactions (completed hash_request now it ∷ []) (all_completed now its)

  append_all-IsIndexed :
      (now : ℕ) (its : List (Interaction B)) (c : Tape)
      → IsIndexed c
      → IsIndexed (append_all hash_request now its c)
  unfolding append_all
  append_all-IsIndexed now [] c h = h
  append_all-IsIndexed now (it ∷ its) c h =
      append_all-IsIndexed now its (index_one hash_request (completed hash_request now it) c)
        (Indexes-append_to hash_of c.by_hash c.interactions (completed hash_request now it) h)

  load-interactions :
      (its : List (Interaction B)) (c : Tape)
      → (load hash_request its c).interactions ≡ c.interactions ++ its
  unfolding load
  load-interactions [] c = sym (append-nil c.interactions)
  load-interactions (it ∷ its) c =
      load-interactions its (index_one hash_request it c)
      ∙ append_assoc c.interactions (it ∷ []) its

  load-IsIndexed :
      (its : List (Interaction B)) (c : Tape) → IsIndexed c → IsIndexed (load hash_request its c)
  unfolding load
  load-IsIndexed [] c h = h
  load-IsIndexed (it ∷ its) c h =
      load-IsIndexed its (index_one hash_request it c)
        (Indexes-append_to hash_of c.by_hash c.interactions it h)

  new-IsIndexed : (path : String) → IsIndexed (new hash_request path)
  unfolding new lookup
  new-IsIndexed path k = refl

  new_empty :
      (path : String) (old : List (Interaction B))
      → (new hash_request path).interactions ++ old ≡ old
  unfolding new
  new_empty path old = refl

  -- What an appended interaction is held as: a blank hash and a missing time are filled in.
  pub record Filled (now : ℕ) (it held : Interaction B) : Type 0 where
    pub hashed :
        ((it.hash ≡ "") × (held.hash ≡ hash_request it.method it.path it.body))
        ⊎ ((it.hash ≢ "") × (held.hash ≡ it.hash))
    pub timed :
        ((it.recorded_at ≡ 0) × (held.recorded_at ≡ now))
        ⊎ ((0 < it.recorded_at) × (held.recorded_at ≡ it.recorded_at))
    pub same_method : held.method ≡ it.method
    pub same_path : held.path ≡ it.path
    pub same_body : held.body ≡ it.body

  -- The same of two lists, one by one.
  abbrev pub AllFilled : ℕ → List (Interaction B) → List (Interaction B) → Type 0
  AllFilled now [] [] = Unit
  AllFilled now (it ∷ its) (held ∷ rest) = Filled now it held × AllFilled now its rest
  AllFilled now _ _ = ⊥

  completed-Filled : (now : ℕ) (it : Interaction B) → Filled now it (completed hash_request now it)
  completed-Filled now it = record {
    hashed = elim (Bool-cases (str_eq it.hash "")) [
      | inl blank ↦ inl (str_eq→eq it.hash "" blank, rw blank)
      | inr set ↦ inr (not_blank it.hash set, rw set)
    ];
    timed = time_of it.recorded_at now;
    same_method = refl;
    same_path = refl;
    same_body = refl;
  }
    where
      not_blank : (h : String) → str_eq h "" ≡ false → h ≢ ""
      not_blank h other e = let same = (eq_iff h "").1 e in absurd (cc)

      time_of :
          (at now : ℕ)
          → ((at ≡ 0) × ((if at == 0 then now else at) ≡ now))
            ⊎ ((0 < at) × ((if at == 0 then now else at) ≡ at))
      time_of zero now = inl (refl, refl)
      time_of (suc at) now = inr (omega arith, rw (lt→==_false (suc at) (omega arith)))

  all_completed-Filled :
      (now : ℕ) (its : List (Interaction B)) → AllFilled now its (all_completed now its)
  all_completed-Filled now [] = tt
  all_completed-Filled now (it ∷ its) = (completed-Filled now it, all_completed-Filled now its)

  -- A cassette that is loaded and then appended to holds the loaded interactions as they are and
  -- then the appended ones, each with a blank hash filled by the hash of its request and a missing
  -- time by the present one, the rest as it was; and for any hash it gives those with that hash, in
  -- this order.
  pub lookup_sequence-append_all :
      (path : String) (old its : List (Interaction B)) (now : ℕ) (hash : String)
      → let c = append_all hash_request now its (load hash_request old (new hash_request path)) in
        (held : List (Interaction B)) × AllFilled now its held
        × (c.interactions ≡ old ++ held)
        × (lookup_sequence hash_request hash c ≡ select hash_of hash (old ++ held))
  unfolding lookup_sequence
  lookup_sequence-append_all path old its now hash =
      let loaded = load hash_request old (new hash_request path) in
      let held : (append_all hash_request now its loaded).interactions
          ≡ old ++ all_completed now its =
        append_all-interactions now its loaded
        ∙ ap (λ (xs : List (Interaction B)). xs ++ all_completed now its)
            (load-interactions old (new hash_request path) ∙ new_empty path old) in
      (
        all_completed now its,
        all_completed-Filled now its,
        held,
        append_all-IsIndexed now its loaded (load-IsIndexed old _ (new-IsIndexed path)) hash
            ∙ ap (select hash_of hash) held,
      )
