-- ===== src/Sessions/Lifetime.antt =====
-- How the store hands out sessions and forgets them.
use mock_agents.Prelude.{
  ℕ, ◌<◌, true, inl, inr, String, Option, some, List, [], ◌∷◌, ◌≡◌, refl, ap, ◌∙◌, arith, ◌==◌,
  ==→eq, Bool-cases, Option-cases, Assoc, lookup, delete, lookup-delete,
}
use mock_agents.Sessions.{MemoryStore, is_expired, delete_if_same, get, sweep, delete_expired}
use mock_agents.Sessions.Turns.{IsCounted}

module _ (V E : Type 0) where
  abbrev pub Store : Type 0
  Store = MemoryStore V E

  -- `m[id]`
  abbrev pub find : String → Store → Option ℕ
  find id st = lookup id st.sessions

  -- An entry holds an allocated session of that id, and every session's turn count is right.
  pub record IsWellFormed (st : Store) : Type 0 where
    pub allocated : (id : String) (p : ℕ) → find id st ≡ some p → p < st.next
    pub own_id : (id : String) (p : ℕ) → find id st ≡ some p → (st.heap p).id ≡ id
    pub counted : (p : ℕ) → IsCounted V E (st.heap p)

  -- The store with some entries gone.
  pub record Forgets (st after : Store) : Type 0 where
    pub same_next : after.next ≡ st.next
    pub same_heap : after.heap ≡ st.heap
    pub fewer : (id : String) (p : ℕ) → find id after ≡ some p → find id st ≡ some p

  Forgets-refl : (st : Store) → Forgets st st
  Forgets-refl st = record { same_next = refl; same_heap = refl; fewer = λ id p h. h }

  Forgets-trans : (a b c : Store) → Forgets a b → Forgets b c → Forgets a c
  Forgets-trans a b c f g = record {
    same_next = g.same_next ∙ f.same_next;
    same_heap = g.same_heap ∙ f.same_heap;
    fewer = λ id p h. f.fewer id p (g.fewer id p h);
  }

  pub Forgets-IsWellFormed :
      (st after : Store) → Forgets st after → IsWellFormed st → IsWellFormed after
  Forgets-IsWellFormed st after f v = record {
    allocated = λ id p h. rw f.same_next (v.allocated id p (f.fewer id p h));
    own_id = λ id p h. rw f.same_heap (v.own_id id p (f.fewer id p h));
    counted = λ p. rw f.same_heap (v.counted p);
  }

  delete-fewer :
      (gone : String) (table : Assoc ℕ) (id : String) (p : ℕ)
      → lookup id (delete gone table) ≡ some p
      → lookup id table ≡ some p
  delete-fewer gone table id p h = ground (arith, lookup-delete gone id table)

  pub delete-Forgets :
      (id : String) (st : Store) → Forgets st (record st { sessions = delete id st.sessions })
  delete-Forgets id st = record {
    same_next = refl;
    same_heap = refl;
    fewer = delete-fewer id st.sessions;
  }

  pub delete_if_same-Forgets :
      (id : String) (p : ℕ) (st : Store) → Forgets st (delete_if_same V E id p st)
  unfolding delete_if_same
  delete_if_same-Forgets id p st = elim (Option-cases (find id st)) [
    | inl gone ↦ rw (gone, delete_if_same) (Forgets-refl st)
    | inr (q, there) ↦ elim (Bool-cases (q == p)) [
      | inl same ↦ rw (there, delete_if_same, same) (delete-Forgets id st)
      | inr other ↦ rw (there, delete_if_same, other) (Forgets-refl st)
    ]
  ]

  pub get-Forgets : (id : String) (now : ℕ) (st : Store) → Forgets st (get V E id now st).0
  unfolding get
  get-Forgets id now st = elim (Option-cases (find id st)) [
    | inl gone ↦ rw (gone, get) (Forgets-refl st)
    | inr (p, there) ↦ elim (Bool-cases (is_expired V E now (st.heap p))) [
      | inl old ↦ rw (there, get, old) (delete_if_same-Forgets id p st)
      | inr live ↦ rw (there, get, live) (Forgets-refl st)
    ]
  ]

  -- One round of Cleanup's loop: nothing, or the removal of a session that is expired now.
  pub data Swept (now p : ℕ) (st after : Store) : Type 0 where
    kept : after ≡ st → Swept now p st after
    removed :
        is_expired V E now (st.heap p) ≡ true
        → find (st.heap p).id st ≡ some p
        → after ≡ record st { sessions = delete (st.heap p).id st.sessions }
        → Swept now p st after

  pub sweep-Swept : (now p : ℕ) (st : Store) → Swept now p st (sweep V E now p st)
  unfolding sweep
  sweep-Swept now p st = elim (Option-cases (find (st.heap p).id st)) [
    | inl gone ↦ kept (rw (gone, sweep))
    | inr (q, there) ↦ elim (Bool-cases (q == p)) [
      | inr other ↦ kept (rw (there, sweep, other))
      | inl same ↦ elim (Bool-cases (is_expired V E now (st.heap p))) [
        | inr live ↦ kept (rw (there, sweep, same, live))
        | inl old ↦ removed old (there ∙ ap some (==→eq q p same)) (rw (there, sweep, same, old))
      ]
    ]
  ]

  pub sweep-Forgets : (now p : ℕ) (st : Store) → Forgets st (sweep V E now p st)
  sweep-Forgets now p st = elim (sweep-Swept now p st) [
    | kept e ↦ rw e (Forgets-refl st)
    | removed _ _ e ↦ rw e (delete-Forgets (st.heap p).id st)
  ]

  pub delete_expired-Forgets :
      (now : ℕ) (ps : List ℕ) (st : Store) → Forgets st (delete_expired V E now ps st)
  unfolding delete_expired
  delete_expired-Forgets now [] st = Forgets-refl st
  delete_expired-Forgets now (p ∷ ps) st =
      Forgets-trans st (sweep V E now p st) _ (sweep-Forgets now p st)
        (delete_expired-Forgets now ps (sweep V E now p st))
