-- ===== src/Sessions/Calls.antt =====
-- Every history of calls on the store of sessions, also with a Get or a Cleanup cut into its phases.
use mock_agents.Prelude.{
  ==_refl, str_eq→eq, some-injective, ℕ, ◌-◌, true, false, ◌⊎◌, inl, inr, String, some, List, [],
  ◌∷◌, ◌≡◌, refl, sym, ap, ◌∙◌, arith, if◌then◌else◌, ◌==◌, ==→eq, str_eq, Bool-cases, Option-cases,
  ℤ, pos, lookup, insert, delete, lookup-insert, lookup-insert_self, lookup-insert_other,
  lookup-delete_other, update_self,
}
use mock_agents.Sessions.{
  outlived, ToolCallMsg, finish_turn, append_user_message, append_assistant_message, Session, Build,
  new_session, apply_turn, is_expired, delete_if_same, get, get_or_create, remove, turn_at,
  delete_expired, cleanup, new_memory_store, create,
}
use mock_agents.Sessions.Turns.{new_session-IsCounted, apply_turn-IsCounted}
use mock_agents.Sessions.Lifetime.{
  Store, find, IsWellFormed, Forgets-IsWellFormed, delete-Forgets, delete_if_same-Forgets,
  get-Forgets, delete_expired-Forgets,
}

module _ (V E : Type 0) where
  -- `evicts` is the last phase of a Get, `sweeps` that of a Cleanup: what their first phases saw may
  -- be out of date.
  pub data Call : Type 0 where
    gets_or_creates : String → String → ℕ → Call
    gets : String → ℕ → Call
    evicts : String → ℕ → Call
    removes : String → Call
    turns : ℕ → String → Build V E → ℕ → Call
    cleans : ℕ → Call
    sweeps : ℕ → List ℕ → Call

  unfoldable pub step : Call → Store V E → Store V E
  step (gets_or_creates id agent now) st = (get_or_create V E id agent now st).0
  step (gets id now) st = (get V E id now st).0
  step (evicts id p) st = delete_if_same V E id p st
  step (removes id) st = remove V E id st
  step (turns p content build now) st = (turn_at V E p content build now st).0
  step (cleans now) st = cleanup V E now st
  step (sweeps now ps) st = delete_expired V E now ps st

  unfoldable pub run : List Call → Store V E → Store V E
  run [] st = st
  run (c ∷ cs) st = run cs (step c st)

  inserted_self :
      (id j : String) (p : ℕ) (st : Store V E)
      → str_eq id j ≡ true
      → lookup j (insert id st.next st.sessions) ≡ some p
      → st.next ≡ p
  inserted_self id j p st mine h = some-injective st.next p (
      sym (
        lookup-insert id j st.next st.sessions
        ∙ ap (λ b. if b then some st.next else lookup j st.sessions) mine)
      ∙ h)

  inserted_other :
      (id j : String) (p : ℕ) (st : Store V E)
      → str_eq id j ≡ false
      → lookup j (insert id st.next st.sessions) ≡ some p
      → lookup j st.sessions ≡ some p
  inserted_other id j p st other h = sym (lookup-insert_other id j st.next st.sessions other) ∙ h

  fresh_address :
      (j : String) (p : ℕ) (st : Store V E)
      → IsWellFormed V E st
      → find V E j st ≡ some p
      → (st.next == p) ≡ false
  fresh_address j p st v h = ground (arith, v.allocated j p h)

  create-IsWellFormed :
      (id agent : String) (now : ℕ) (st : Store V E)
      → IsWellFormed V E st
      → IsWellFormed V E (create V E id agent now st).0
  unfolding new_session
  create-IsWellFormed id agent now st v =
      let fresh = new_session V E id agent (pos st.ttl) now in
      record {
        allocated = λ j p h. elim (Bool-cases (str_eq id j)) [
          | inl mine ↦ omega (arith, inserted_self id j p st mine h)
          | inr other ↦ omega (arith, v.allocated j p (inserted_other id j p st other h))
        ];
        own_id = λ j p h. elim (Bool-cases (str_eq id j)) [
          | inl mine ↦
              rw (sym (inserted_self id j p st mine h), ==_refl st.next) (str_eq→eq id j mine)
          | inr other ↦
              rw (fresh_address j p st v (inserted_other id j p st other h))
                (v.own_id j p (inserted_other id j p st other h))
        ];
        counted = λ p. elim (Bool-cases (st.next == p)) [
          | inl new ↦ rw new (new_session-IsCounted V E id agent (pos st.ttl) now)
          | inr old ↦ rw old (v.counted p)
        ];
      }

  pub get_or_create-IsWellFormed :
      (id agent : String) (now : ℕ) (st : Store V E)
      → IsWellFormed V E st
      → IsWellFormed V E (get_or_create V E id agent now st).0
  unfolding get_or_create
  get_or_create-IsWellFormed id agent now st v = elim (Option-cases (find V E id st)) [
    | inl gone ↦ rw (gone, get_or_create) (create-IsWellFormed id agent now st v)
    | inr (p, there) ↦ elim (Bool-cases (is_expired V E now (st.heap p))) [
      | inl old ↦
          rw (there, get_or_create, old)
            (create-IsWellFormed id agent now _
              (Forgets-IsWellFormed V E st _ (delete-Forgets V E id st) v))
      | inr live ↦ rw (there, get_or_create, live) v
    ]
  ]

  finish_turn_id :
      (now : ℕ) (s : Session V E) (outcome : E ⊎ (String × List (ToolCallMsg V E)))
      → (finish_turn V E now s outcome).0.id ≡ s.id
  unfolding append_assistant_message
  finish_turn_id now s (inl err) = refl
  finish_turn_id now s (inr (content, calls)) = refl

  turn_id :
      (content : String) (build : Build V E) (now : ℕ) (s : Session V E)
      → (apply_turn V E content build now s).0.id ≡ s.id
  unfolding apply_turn append_user_message
  turn_id content build now s =
      let asked = append_user_message V E content now s in
      let built = build asked.turn_count asked.variables in
      finish_turn_id now (record asked { variables = built.0 }) built.1

  pub turn_at-IsWellFormed :
      (p : ℕ) (content : String) (build : Build V E) (now : ℕ) (st : Store V E)
      → IsWellFormed V E st
      → IsWellFormed V E (turn_at V E p content build now st).0
  unfolding turn_at
  turn_at-IsWellFormed p content build now st v = record {
    allocated = v.allocated;
    own_id = λ id q h. elim (Bool-cases (p == q)) [
      | inl same ↦ rw same (
          turn_id content build now (st.heap p)
          ∙ ap (λ z. (st.heap z).id) (==→eq p q same)
          ∙ v.own_id id q h)
      | inr other ↦ rw other (v.own_id id q h)
    ];
    counted = λ q. elim (Bool-cases (p == q)) [
      | inl same ↦ rw same (apply_turn-IsCounted V E content build now (st.heap p) (v.counted p))
      | inr other ↦ rw other (v.counted q)
    ];
  }

  step-IsWellFormed :
      (c : Call) (st : Store V E) → IsWellFormed V E st → IsWellFormed V E (step c st)
  unfolding step remove cleanup
  step-IsWellFormed (gets_or_creates id agent now) st v =
      get_or_create-IsWellFormed id agent now st v
  step-IsWellFormed (gets id now) st v = Forgets-IsWellFormed V E st _ (get-Forgets V E id now st) v
  step-IsWellFormed (evicts id p) st v =
      Forgets-IsWellFormed V E st _ (delete_if_same-Forgets V E id p st) v
  step-IsWellFormed (removes id) st v = Forgets-IsWellFormed V E st _ (delete-Forgets V E id st) v
  step-IsWellFormed (turns p content build now) st v = turn_at-IsWellFormed p content build now st v
  step-IsWellFormed (cleans now) st v =
      Forgets-IsWellFormed V E st _ (delete_expired-Forgets V E now _ st) v
  step-IsWellFormed (sweeps now ps) st v =
      Forgets-IsWellFormed V E st _ (delete_expired-Forgets V E now ps st) v

  run_all-IsWellFormed :
      (cs : List Call) (st : Store V E) → IsWellFormed V E st → IsWellFormed V E (run cs st)
  unfolding run
  run_all-IsWellFormed [] st v = v
  run_all-IsWellFormed (c ∷ cs) st v =
      run_all-IsWellFormed cs (step c st) (step-IsWellFormed c st v)

  -- After any history of calls on a new store, whatever the phases of a Get or a Cleanup saw before,
  -- each id leads to an allocated session of that id, and the turn count of every session is the
  -- number of its user messages.
  pub run-IsWellFormed :
      (cs : List Call) (ttl : ℤ) → IsWellFormed V E (run cs (new_memory_store V E ttl))
  unfolding new_memory_store lookup
  run-IsWellFormed cs ttl = run_all-IsWellFormed cs (new_memory_store V E ttl) (record {
    allocated = λ id p h. absurd (cc);
    own_id = λ id p h. absurd (cc);
    counted = λ p. new_session-IsCounted V E "" "" (pos 0) 0;
  })

  pub not_outlived : (ttl : ℕ) → outlived V E (pos ttl) 0 ≡ false
  not_outlived ttl = ground arith

  pub n-n : (n : ℕ) → n - n ≡ 0
  n-n n = omega arith

  fresh_is_live :
      (id agent : String) (now : ℕ) (st : Store V E)
      → is_expired V E now ((create V E id agent now st).0.heap st.next) ≡ false
  unfolding is_expired new_session
  fresh_is_live id agent now st = rw (==_refl st.next, n-n now) (not_outlived st.ttl)

  -- The session that a caller is given is in the store under its id and not expired. A live session
  -- that was there is the one, with the store as it was; otherwise it is a new one, with no message.
  -- What other ids lead to does not change.
  pub get_or_create_lem :
      (id agent : String) (now : ℕ) (st : Store V E)
      → let r = get_or_create V E id agent now st in
        (find V E id r.0 ≡ some r.1)
        × (is_expired V E now (r.0.heap r.1) ≡ false)
        × ((p : ℕ) → find V E id st ≡ some p → is_expired V E now (st.heap p) ≡ false → r ≡ (st, p))
        × ((r ≡ (st, r.1))
            ⊎ (r.0.heap r.1 ≡ new_session V E id agent (pos st.ttl) now) × (r.1 ≡ st.next))
        × ((other : String) → str_eq id other ≡ false → find V E other r.0 ≡ find V E other st)
  unfolding get_or_create
  get_or_create_lem id agent now st = elim (Option-cases (find V E id st)) [
    | inl gone ↦
        rw (gone, get_or_create)
          (
            lookup-insert_self id st.next st.sessions,
            fresh_is_live id agent now st,
            (λ p there live. absurd (cc)),
            inr (update_self st.heap st.next _, refl),
            (λ other differs. lookup-insert_other id other st.next st.sessions differs),
          )
    | inr (p, there) ↦ elim (Bool-cases (is_expired V E now (st.heap p))) [
      | inl old ↦
          rw (there, get_or_create, old)
            (
              lookup-insert_self id st.next (delete id st.sessions),
              fresh_is_live id agent now st,
              (λ q same live. absurd (cc)),
              inr (update_self st.heap st.next _, refl),
              (λ other differs.
                  lookup-insert_other id other st.next (delete id st.sessions) differs
                  ∙ lookup-delete_other id other st.sessions differs),
            )
      | inr live ↦
          rw (there, get_or_create, live)
            (
              there,
              live,
              (λ q same still. ap (λ r. (st, r)) (some-injective p q same)),
              inl refl,
              (λ other differs. refl),
            )
    ]
  ]
