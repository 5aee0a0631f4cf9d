-- ===== src/Sessions/Eviction.antt =====
-- What the store's clean-up takes away, and what a late eviction takes away.
use mock_agents.Prelude.{
  Bool, ℕ, ◌-◌, true, false, ◌⊎◌, inl, inr, String, Option, none, some, List, [], ◌∷◌, ◌≡◌, ◌≢◌,
  refl, sym, ap, ◌∙◌, if◌then◌else◌, ==_refl, str_eq, str_eq→eq, some-injective, Bool-cases,
  Option-cases, Assoc, lookup, delete, lookup-delete_self, lookup-delete_other, pos, negsuc, ℤ, In,
  subst,
}
use mock_agents.Sessions.{
  ToolCallMsg, finish_turn, append_user_message, append_assistant_message, get, Session, Build,
  is_expired, delete_if_same, apply_turn, turn_at, find_expired, sweep, delete_expired, cleanup,
  outlived,
}
use mock_agents.Sessions.Lifetime.{
  Store, find, IsWellFormed, Forgets, Forgets-IsWellFormed, kept, removed, sweep-Swept,
  sweep-Forgets, delete_expired-Forgets,
}
use mock_agents.Sessions.Calls.{turn_at-IsWellFormed, n-n, not_outlived}

module _ (V E : Type 0) where
  clash {ℓ} :
      {A : Type ℓ} (now q p : ℕ) (st : Store V E)
      → q ≡ p
      → is_expired V E now (st.heap q) ≡ true
      → is_expired V E now (st.heap p) ≡ false
      → A
  clash now q p st same old live = absurd (cc)

  sweep_keeps_live :
      (now q : ℕ) (id : String) (p : ℕ) (st : Store V E)
      → IsWellFormed V E st
      → find V E id st ≡ some p
      → is_expired V E now (st.heap p) ≡ false
      → find V E id (sweep V E now q st) ≡ some p
  sweep_keeps_live now q id p st v there live = elim (sweep-Swept V E now q st) [
    | kept e ↦ rw e there
    | removed old held e ↦ elim (Bool-cases (str_eq (st.heap q).id id)) [
      | inl same ↦
          clash now q p st
            (some-injective q p
              (sym held ∙ ap (λ k. find V E k st) (str_eq→eq (st.heap q).id id same) ∙ there))
            old live
      | inr differs ↦ rw e (lookup-delete_other (st.heap q).id id st.sessions differs ∙ there)
    ]
  ]

  delete_expired_keeps_live :
      (now : ℕ) (qs : List ℕ) (id : String) (p : ℕ) (st : Store V E)
      → IsWellFormed V E st
      → find V E id st ≡ some p
      → is_expired V E now (st.heap p) ≡ false
      → find V E id (delete_expired V E now qs st) ≡ some p
  unfolding delete_expired
  delete_expired_keeps_live now [] id p st v there live = there
  delete_expired_keeps_live now (q ∷ qs) id p st v there live =
      let f = sweep-Forgets V E now q st in
      delete_expired_keeps_live now qs id p (sweep V E now q st) (Forgets-IsWellFormed V E st _ f v)
        (sweep_keeps_live now q id p st v there live) (rw f.same_heap live)

  sweep_drops :
      (now p : ℕ) (id : String) (st : Store V E)
      → IsWellFormed V E st
      → find V E id st ≡ some p
      → is_expired V E now (st.heap p) ≡ true
      → find V E id (sweep V E now p st) ≡ none
  unfolding sweep
  sweep_drops now p id st v there old =
      let own = v.own_id id p there in
      rw (ap (λ k. find V E k st) own ∙ there, sweep, ==_refl p, old)
        (subst (λ k. lookup k (delete (st.heap p).id st.sessions) ≡ none) own
          (lookup-delete_self (st.heap p).id st.sessions))

  some≢none :
      (id : String) (p : ℕ) (st : Store V E) → find V E id st ≡ none → find V E id st ≢ some p
  some≢none id p st gone there = absurd (cc)

  stays_gone :
      (id : String) (st after : Store V E)
      → Forgets V E st after
      → find V E id st ≡ none
      → find V E id after ≡ none
  stays_gone id st after f gone = elim (Option-cases (find V E id after)) [
    | inl absent ↦ absent
    | inr (p, there) ↦ absurd (some≢none id p st gone (f.fewer id p there))
  ]

  delete_expired_drops :
      (now : ℕ) (qs : List ℕ) (id : String) (p : ℕ) (st : Store V E)
      → IsWellFormed V E st
      → find V E id st ≡ some p
      → is_expired V E now (st.heap p) ≡ true
      → In p qs
      → find V E id (delete_expired V E now qs st) ≡ none
  unfolding delete_expired
  delete_expired_drops now [] id p st v there old i = absurd i
  delete_expired_drops now (q ∷ qs) id p st v there old (inl same) =
      stays_gone id (sweep V E now q st) _ (delete_expired-Forgets V E now qs (sweep V E now q st))
        (rw (sym same) (sweep_drops now p id st v there old))
  delete_expired_drops now (q ∷ qs) id p st v there old (inr i) =
      let f = sweep-Forgets V E now q st in
      let later = sweep V E now q st in
      elim (Option-cases (find V E id later)) [
        | inl gone ↦ stays_gone id later _ (delete_expired-Forgets V E now qs later) gone
        | inr (r, still) ↦
            delete_expired_drops now qs id p later (Forgets-IsWellFormed V E st _ f v)
              (still ∙ sym (f.fewer id r still) ∙ there) (rw f.same_heap old) i
      ]

  either : (q p : ℕ) (qs : List ℕ) (b : Bool) → In p qs → In p (if b then q ∷ qs else qs)
  either q p qs true i = inr i
  either q p qs false i = i

  find_expired-In :
      (now : ℕ) (st : Store V E) (id : String) (p : ℕ) (table : Assoc ℕ)
      → lookup id table ≡ some p
      → is_expired V E now (st.heap p) ≡ true
      → In p (find_expired V E now st table)
  unfolding find_expired lookup
  find_expired-In now st id p [] there old = absurd (cc)
  find_expired-In now st id p (e ∷ rest) there old = elim (Bool-cases (str_eq e.key id)) [
    | inl here ↦
        let same : e.val ≡ p = some-injective e.val p (sym (rw here refl) ∙ there) in
        rw (ap (λ q. is_expired V E now (st.heap q)) same ∙ old) (inl (sym same))
    | inr later ↦
        either (e.val) p (find_expired V E now st rest) (is_expired V E now (st.heap e.val))
          (find_expired-In now st id p rest (sym (rw later refl) ∙ there) old)
  ]

  -- What of an id's entry is left at a time.
  abbrev pub still_live : ℕ → Store V E → Option ℕ → Option ℕ
  still_live now st none = none
  still_live now st (some p) = if is_expired V E now (st.heap p) then none else some p

  -- Of a well-formed store, Cleanup removes exactly the sessions that are expired.
  pub cleanup_lem :
      (now : ℕ) (st : Store V E) (id : String)
      → IsWellFormed V E st
      → find V E id (cleanup V E now st) ≡ still_live now st (find V E id st)
  unfolding cleanup
  cleanup_lem now st id v = elim (Option-cases (find V E id st)) [
    | inl gone ↦
        rw (gone, still_live)
          (stays_gone id st _
            (delete_expired-Forgets V E now (find_expired V E now st st.sessions) st) gone)
    | inr (p, there) ↦ elim (Bool-cases (is_expired V E now (st.heap p))) [
      | inl old ↦
          delete_expired_drops now (find_expired V E now st st.sessions) id p st v there old
            (find_expired-In now st id p st.sessions there old)
          ∙ rw (there, still_live, old)
      | inr live ↦
          delete_expired_keeps_live now (find_expired V E now st st.sessions) id p st v there live
          ∙ rw (there, still_live, live)
    ]
  ]

  get_lem :
      (now : ℕ) (st : Store V E) (id : String)
      → (get V E id now st).1 ≡ still_live now st (find V E id st)
  unfolding get
  get_lem now st id = elim (Option-cases (find V E id st)) [
    | inl gone ↦ rw (gone, get, still_live)
    | inr (p, there) ↦ elim (Bool-cases (is_expired V E now (st.heap p))) [
      | inl old ↦ rw (there, get, still_live, old)
      | inr live ↦ rw (there, get, still_live, live)
    ]
  ]

  never_outlived : (ttl : ℤ) (now : ℕ) → outlived V E ttl (now - now) ≡ false
  never_outlived (pos n) now = rw (n-n V E now) (not_outlived V E n)
  never_outlived (negsuc n) now = refl

  finish_turn_live :
      (now : ℕ) (s : Session V E) (outcome : E ⊎ (String × List (ToolCallMsg V E)))
      → s.last_access ≡ now
      → is_expired V E now (finish_turn V E now s outcome).0 ≡ false
  unfolding append_assistant_message is_expired
  finish_turn_live now s (inl err) h = rw h (never_outlived s.ttl now)
  finish_turn_live now s (inr (content, calls)) h = never_outlived s.ttl now

  turned_live :
      (p : ℕ) (content : String) (build : Build V E) (now : ℕ) (st : Store V E)
      → is_expired V E now ((turn_at V E p content build now st).0.heap p) ≡ false
  unfolding turn_at apply_turn append_user_message
  turned_live p content build now st =
      let asked = append_user_message V E content now (st.heap p) in
      let built = build asked.turn_count asked.variables in
      rw (==_refl p) (finish_turn_live now (record asked { variables = built.0 }) built.1 refl)

  turn_find :
      (id : String) (p : ℕ) (content : String) (build : Build V E) (now : ℕ) (st : Store V E)
      → find V E id st ≡ some p
      → find V E id (turn_at V E p content build now st).0 ≡ some p
  unfolding turn_at
  turn_find id p content build now st there = there

  evicted :
      (id : String) (p : ℕ) (st : Store V E)
      → find V E id st ≡ some p
      → find V E id (delete_if_same V E id p st) ≡ none
  unfolding delete_if_same
  evicted id p st there = rw (there, delete_if_same, ==_refl p) (lookup-delete_self id st.sessions)

  still_live_twice :
      (now : ℕ) (st after : Store V E) (o : Option ℕ)
      → after.heap ≡ st.heap
      → still_live now after (still_live now st o) ≡ still_live now st o
  still_live_twice now st after none h = refl
  still_live_twice now st after (some p) h = elim (Bool-cases (is_expired V E now (st.heap p))) [
    | inl old ↦ rw old refl
    | inr live ↦
        rw (live, ap (λ (heap : ℕ → Session V E). is_expired V E now (heap p)) h ∙ live) refl
  ]

  -- A Cleanup is not seen by the Gets at the same time, of any id.
  pub get-cleanup :
      (now : ℕ) (st : Store V E) (id : String)
      → IsWellFormed V E st
      → (get V E id now (cleanup V E now st)).1 ≡ (get V E id now st).1
  unfolding cleanup
  get-cleanup now st id v =
      let f = delete_expired-Forgets V E now (find_expired V E now st st.sessions) st in
      get_lem now (cleanup V E now st) id
      ∙ ap (still_live now (cleanup V E now st)) (cleanup_lem now st id v)
      ∙ still_live_twice now st (cleanup V E now st) (find V E id st) f.same_heap
      ∙ sym (get_lem now st id)

  -- A turn makes its session live, so a Cleanup that had found it expired before leaves it in the
  -- store, but a Get that had found it expired before removes it.
  pub late_eviction :
      (id content : String) (build : Build V E) (now p : ℕ) (st : Store V E)
      → IsWellFormed V E st
      → find V E id st ≡ some p
      → let after = (turn_at V E p content build now st).0 in
        (is_expired V E now (after.heap p) ≡ false)
        × (find V E id (delete_expired V E now (p ∷ []) after) ≡ some p)
        × (find V E id (delete_if_same V E id p after) ≡ none)
  late_eviction id content build now p st v there =
      let after = (turn_at V E p content build now st).0 in
      let live = turned_live p content build now st in
      (
        live,
        delete_expired_keeps_live now (p ∷ []) id p after
            (turn_at-IsWellFormed V E p content build now st v)
            (turn_find id p content build now st there) live,
        evicted id p after (turn_find id p content build now st there),
      )
