-- ===== src/Sessions/Isolation.antt =====
-- internal/engine/state/store.go: a turn of one session leaves the others alone.
use mock_agents.Prelude.{
  ℕ, ◌<◌, false, String, Option, none, some, if◌then◌else◌, ◌==◌, str_eq, ◌≡◌, refl, sym, ap, ◌∙◌,
  arith, ==→eq, str_eq_refl, by_test, pos, delete, update,
}
use mock_agents.Sessions.{
  Session, Build, new_session, is_expired, get_or_create, turn_at, MemoryStore, create,
}
use mock_agents.Sessions.Lifetime.{Store, find, IsWellFormed}
use mock_agents.Sessions.Calls.{get_or_create-IsWellFormed, get_or_create_lem}

module _ (V E : Type 0) where
  -- What a caller sees under an id.
  abbrev pub session_at : (ℕ → Session V E) → Option ℕ → Option (Session V E)
  session_at heap none = none
  session_at heap (some p) = some (heap p)

  abbrev pub view : String → Store V E → Option (Session V E)
  view id st = session_at st.heap (find V E id st)

  update_below :
      (heap : ℕ → Session V E) (n q : ℕ) (s : Session V E) → q < n → update heap n s q ≡ heap q
  update_below heap n q s below =
      by_test (λ x. x ≡ heap q) (n == q) s (heap q)
        (λ same. absurd (omega (arith, ==→eq n q same, below))) (λ _. refl)

  get_or_create-heap :
      (id agent : String) (now : ℕ) (st : Store V E) (q : ℕ)
      → q < st.next
      → (get_or_create V E id agent now st).0.heap q ≡ st.heap q
  unfolding get_or_create
  get_or_create-heap id agent now st q below = at_entry (find V E id st)
    where
      at_entry :
          (o : Option ℕ)
          → (elim o as (λ _. MemoryStore V E × ℕ) [
            | none ↦ create V E id agent now st
            | some p ↦
                if is_expired V E now (st.heap p)
                then create V E id agent now (record st { sessions = delete id st.sessions })
                else (st, p)
          ]).0.heap
              q
            ≡ st.heap q
      at_entry none =
          update_below st.heap st.next q (new_session V E id agent (pos st.ttl) now) below
      at_entry (some p) =
          by_test (λ (x : MemoryStore V E × ℕ). x.0.heap q ≡ st.heap q)
            (is_expired V E now (st.heap p)) _ _
            (λ _. update_below st.heap st.next q (new_session V E id agent (pos st.ttl) now) below)
            (λ _. refl)

  get_or_create-view :
      (id agent : String) (now : ℕ) (st : Store V E) (other : String)
      → IsWellFormed V E st
      → str_eq id other ≡ false
      → view other (get_or_create V E id agent now st).0 ≡ view other st
  get_or_create-view id agent now st other v differs =
      let r = get_or_create V E id agent now st in
      ap (λ o. session_at r.0.heap o) ((get_or_create_lem V E id agent now st).4 other differs)
      ∙ at_entry (find V E other st) refl
    where
      at_entry :
          (o : Option ℕ)
          → find V E other st ≡ o
          → session_at (get_or_create V E id agent now st).0.heap o ≡ session_at st.heap o
      at_entry none h = refl
      at_entry (some p) h = ap some (get_or_create-heap id agent now st p (v.allocated other p h))

  turn_at-view :
      (p : ℕ) (content : String) (build : Build V E) (now : ℕ) (st : Store V E) (id other : String)
      → IsWellFormed V E st
      → find V E id st ≡ some p
      → str_eq id other ≡ false
      → view other (turn_at V E p content build now st).0 ≡ view other st
  unfolding turn_at
  turn_at-view p content build now st id other v here differs = at_entry (find V E other st) refl
    where
      at_entry :
          (o : Option ℕ)
          → find V E other st ≡ o
          → session_at (turn_at V E p content build now st).0.heap o ≡ session_at st.heap o
      at_entry none h = refl
      at_entry (some q) h = ap some (
          by_test (λ x. x ≡ st.heap q) (p == q) _ (st.heap q)
            (λ same. absurd (
              cc (
                sym (
                  ap (λ k. str_eq id k)
                    (sym (v.own_id other q h)
                      ∙ ap (λ z. (st.heap z).id) (sym (==→eq p q same))
                      ∙ v.own_id id p here)
                  ∙ str_eq_refl id)
                ∙ differs)))
            (λ _. refl))

  -- A turn under one id changes nothing of what a caller sees under another.
  pub turn-view :
      (id agent content : String) (build : Build V E) (now later : ℕ) (st : Store V E)
      (other : String)
      → IsWellFormed V E st
      → str_eq id other ≡ false
      → let r = get_or_create V E id agent now st in
        view other (turn_at V E r.1 content build later r.0).0 ≡ view other st
  turn-view id agent content build now later st other v differs =
      let r = get_or_create V E id agent now st in
      turn_at-view r.1 content build later r.0 id other
        (get_or_create-IsWellFormed V E id agent now st v) (get_or_create_lem V E id agent now st).0
        differs
      ∙ get_or_create-view id agent now st other v differs
