-- ===== src/Quota/Spend.antt =====
-- The monthly spend cap of internal/quota/quota.go.
use mock_agents.Prelude.{
  ℕ, ◌+◌, ◌≤◌, ◌<◌, false, String, none, some, List, [], ◌∷◌, ◌≡◌, refl, sym, ◌∙◌, ap, inl, inr,
  subst, str_eq, str_eq_refl, Bool-cases, lookup, lookup-insert_self, lt→ltb, ltb, arith,
  le→ltb_false, All, Option-cases, eq_iff,
}
use mock_agents.Float.{Float64}
use mock_agents.Quota.{
  SpendBackend, Counter, Enforcer, effective, counter_for_month, settle, add_to_spend,
  current_spend, check_spend, refreshed, spend_cache_ttl, store_counter,
}

module _ (f : Float64) (backend : SpendBackend f.F) (month_of : ℕ → String) where
  abbrev pub Ledger : Type 0
  Ledger = Enforcer f backend month_of

  abbrev pub spent : String → ℕ → Ledger → f.F
  spent t now e = (current_spend f backend month_of t now e).1

  -- The charges of one tenant, in turn, at times that the list gives.
  unfoldable pub charge_all : String → List (f.F × ℕ) → Ledger → Ledger
  charge_all t [] e = e
  charge_all t ((usd, now) ∷ cs) e = charge_all t cs (add_to_spend f backend month_of t usd now e)

  -- A charge that counts: it is positive, and made in the month.
  abbrev pub Charge : String → f.F × ℕ → Type 0
  Charge month c = (f.le c.0 f.f_zero ≡ false) × (month_of c.1 ≡ month)

  abbrev pub total : f.F → List (f.F × ℕ) → f.F
  total start [] = start
  total start ((usd, now) ∷ cs) = total (f.add start usd) cs

  spent_local :
      (t : String) (now : ℕ) (e : Ledger)
      → e.spend_backend ≡ none
      → spent t now e ≡ (counter_for_month f backend month_of t (month_of now) e).usd
  unfolding current_spend
  spent_local t now e h = rw h

  counter-month :
      (t month : String) (e : Ledger)
      → (counter_for_month f backend month_of t month e).month ≡ month
  unfolding counter_for_month
  counter-month t month e = elim (Option-cases (lookup t e.spend_cache)) [
    | inl gone ↦ rw (gone, counter_for_month)
    | inr (c, there) ↦ elim (Bool-cases (str_eq c.month month)) [
      | inl same ↦ rw (there, counter_for_month, same) ((eq_iff c.month month).0 same)
      | inr other ↦ rw (there, counter_for_month, other)
    ]
  ]

  counter_reset :
      (t month : String) (c : Counter f) (e : Ledger)
      → lookup t e.spend_cache ≡ some c
      → str_eq c.month month ≡ false
      → (counter_for_month f backend month_of t month e).usd ≡ f.f_zero
  unfolding counter_for_month
  counter_reset t month c e found other = rw (found, counter_for_month, other)

  counter_stored :
      (t month : String) (c : Counter f) (e : Ledger)
      → c.month ≡ month
      → counter_for_month f backend month_of t month (store_counter f backend month_of t c e) ≡ c
  unfolding counter_for_month
  counter_stored t month c e h =
      rw (lookup-insert_self t c e.spend_cache, counter_for_month, h, str_eq_refl month)

  add_to_spend_local :
      (t : String) (usd : f.F) (now : ℕ) (e : Ledger)
      → e.spend_backend ≡ none
      → str_eq t "" ≡ false
      → f.le usd f.f_zero ≡ false
      → let c = counter_for_month f backend month_of t (month_of now) e in
        add_to_spend f backend month_of t usd now e
        ≡ store_counter f backend month_of t (record c { usd = f.add c.usd usd }) e
  unfolding add_to_spend
  add_to_spend_local t usd now e h named positive = simp (named, positive, h)

  counter_local :
      (t : String) (usd : f.F) (now : ℕ) (e : Ledger) (month : String)
      → e.spend_backend ≡ none
      → str_eq t "" ≡ false
      → Charge month (usd, now)
      → (counter_for_month f backend month_of t month
          (add_to_spend f backend month_of t usd now e)).usd
        ≡ f.add (counter_for_month f backend month_of t month e).usd usd
  counter_local t usd now e month h named (positive, same) =
      subst
        (λ m.
          (counter_for_month f backend month_of t m
            (add_to_spend f backend month_of t usd now e)).usd
          ≡ f.add (counter_for_month f backend month_of t m e).usd usd)
        same
        (let stored = counter_stored t (month_of now) _ e (counter-month t (month_of now) e) in
          rw (add_to_spend_local t usd now e h named positive)
            (ap (λ (c : Counter f). c.usd) stored))

  local_after :
      (t : String) (usd : f.F) (now : ℕ) (e : Ledger)
      → e.spend_backend ≡ none
      → str_eq t "" ≡ false
      → f.le usd f.f_zero ≡ false
      → (add_to_spend f backend month_of t usd now e).spend_backend ≡ none
  local_after t usd now e h named positive =
      ap (λ (x : Ledger). x.spend_backend) (add_to_spend_local t usd now e h named positive) ∙ h

  charge_all-spent :
      (t : String) (cs : List (f.F × ℕ)) (now : ℕ) (e : Ledger)
      → e.spend_backend ≡ none
      → str_eq t "" ≡ false
      → All (Charge (month_of now)) cs
      → spent t now (charge_all t cs e) ≡ total (spent t now e) cs
  unfolding charge_all
  charge_all-spent t [] now e h named all = refl
  charge_all-spent t ((usd, at) ∷ cs) now e h named (c, all) =
      let e' = add_to_spend f backend month_of t usd at e in
      let h' = local_after t usd at e h named c.0 in
      let grown =
        spent_local t now e' h'
        ∙ counter_local t usd at e (month_of now) h named c
        ∙ ap (λ s. f.add s usd) (sym (spent_local t now e h)) in
      charge_all-spent t cs now e' h' named all ∙ ap (λ s. total s cs) grown

  charge_all-effective :
      (t : String) (cs : List (f.F × ℕ)) (month : String) (e : Ledger)
      → e.spend_backend ≡ none
      → str_eq t "" ≡ false
      → All (Charge month) cs
      → effective f backend month_of t (charge_all t cs e) ≡ effective f backend month_of t e
  unfolding charge_all effective
  charge_all-effective t [] month e h named all = refl
  charge_all-effective t ((usd, at) ∷ cs) month e h named (c, all) =
      charge_all-effective t cs month (add_to_spend f backend month_of t usd at e)
        (local_after t usd at e h named c.0) named all
      ∙ ap (λ (x : Ledger). effective f backend month_of t x)
          (add_to_spend_local t usd at e h named c.0)

  -- Without a shared ledger: a tenant with a spend cap passes the check after any charges of the
  -- month exactly when what it had spent in the month before them, with the charges added one by
  -- one, is still below the cap. A tenant whose counter stands in another month starts from zero.
  pub check_spend-charge_all :
      (t : String) (cs : List (f.F × ℕ)) (now : ℕ) (e : Ledger)
      → e.spend_backend ≡ none
      → str_eq t "" ≡ false
      → All (Charge (month_of now)) cs
      → let cap = (effective f backend month_of t e).monthly_spend_usd in
        f.le cap f.f_zero ≡ false
        → ((check_spend f backend month_of t now (charge_all t cs e)).1
            ≡ f.lt (total (spent t now e) cs) cap)
          × ((c : Counter f)
              → lookup t e.spend_cache ≡ some c
              → str_eq c.month (month_of now) ≡ false
              → spent t now e ≡ f.f_zero)
  unfolding check_spend
  check_spend-charge_all t cs now e h named all capped = (
    rw (
      charge_all-effective t cs (month_of now) e h named all,
      named,
      capped,
      charge_all-spent t cs now e h named all,
    ),
    λ c found other. spent_local t now e h ∙ counter_reset t (month_of now) c e found other,
  )

  add_to_spend_shared :
      (t : String) (usd : f.F) (now : ℕ) (e : Ledger) (ledger ledger' : backend.L) (sum : f.F)
      → e.spend_backend ≡ some ledger
      → backend.add_spend ledger t (month_of now) usd ≡ (ledger', some sum)
      → str_eq t "" ≡ false
      → f.le usd f.f_zero ≡ false
      → let c = counter_for_month f backend month_of t (month_of now) e in
        add_to_spend f backend month_of t usd now e
        ≡ store_counter f backend month_of t
            (record c { usd = sum; expiry = now + spend_cache_ttl })
            (record e { spend_backend = some ledger' })
  unfolding add_to_spend settle
  add_to_spend_shared t usd now e ledger ledger' sum h answer named positive =
      simp (named, positive, h, answer)

  -- A stored counter that has expired is stale in every month.
  expired_stored :
      (t month : String) (k : Counter f) (now : ℕ) (e : Ledger)
      → k.expiry ≤ now
      → ltb now
          (counter_for_month f backend month_of t month
            (store_counter f backend month_of t k e)).expiry
        ≡ false
  unfolding counter_for_month
  expired_stored t month k now e old = elim (Bool-cases (str_eq k.month month)) [
    | inl same ↦
        rw (lookup-insert_self t k e.spend_cache, counter_for_month, same)
          (le→ltb_false now k.expiry old)
    | inr other ↦
        rw (lookup-insert_self t k e.spend_cache, counter_for_month, other)
          (le→ltb_false now 0 (omega arith))
  ]

  spent_fresh :
      (t : String) (now : ℕ) (e : Ledger) (ledger : backend.L) (fresh : f.F)
      → e.spend_backend ≡ some ledger
      → ltb now (counter_for_month f backend month_of t (month_of now) e).expiry ≡ false
      → backend.get_spend ledger t (month_of now) ≡ some fresh
      → spent t now e ≡ fresh
  unfolding current_spend refreshed
  spent_fresh t now e ledger fresh h stale asked = rw (spent, h, stale, asked)

  -- A shared ledger that others have changed meanwhile.
  abbrev pub with_ledger : backend.L → Ledger → Ledger
  with_ledger other e = record e { spend_backend = some other }

  -- After a charge that the shared ledger accepts with a new total, whatever the ledger has become
  -- since and with no other call in between: in the same month the tenant is held to that total for
  -- five seconds; from then on, in any month, to what the ledger says, where the ledger answers.
  pub add_to_spend_cached :
      (t : String) (usd : f.F) (now later late : ℕ) (e : Ledger) (ledger ledger' other : backend.L)
      (sum fresh : f.F)
      → e.spend_backend ≡ some ledger
      → backend.add_spend ledger t (month_of now) usd ≡ (ledger', some sum)
      → str_eq t "" ≡ false
      → f.le usd f.f_zero ≡ false
      → later < now + spend_cache_ttl
      → month_of later ≡ month_of now
      → now + spend_cache_ttl ≤ late
      → backend.get_spend other t (month_of late) ≡ some fresh
      → let after = with_ledger other (add_to_spend f backend month_of t usd now e) in
        (spent t later after ≡ sum) × (spent t late after ≡ fresh)
  unfolding current_spend
  add_to_spend_cached t usd now later late e ledger ledger' other sum fresh h answer named positive
        soon same old asked =
      let after = add_to_spend_shared t usd now e ledger ledger' sum h answer named positive in
      let c = counter_for_month f backend month_of t (month_of now) e in
      let kept : Counter f = record c { usd = sum; expiry = now + spend_cache_ttl } in
      let stored =
        counter_stored t (month_of now) kept (record e { spend_backend = some other })
          (counter-month t (month_of now) e) in
      (
        rw (after, spent, same, stored, lt→ltb later (now + spend_cache_ttl) soon),
        rw after (
            spent_fresh t late (with_ledger other (store_counter f backend month_of t kept e)) other
              fresh refl
              (expired_stored t (month_of late) kept late (record e { spend_backend = some other })
                old)
              asked),
      )
