-- ===== src/Chaos/Recovery.antt =====
-- What an agent with fail-first triggers answers to its n-th request, whatever other agents do.
use mock_agents.Prelude.{
  ℕ, ◌+◌, ◌-◌, ◌≤◌, ◌<◌, String, Option, none, some, List, [], ◌∷◌, ◌≡◌, ◌≢◌, refl, ap, inl, inr,
  arith, if◌then◌else◌, str_eq, Bool-cases, eq_iff, subst, lookup,
}
use native.Mathlib.Decide.{dec_lt}
use mock_agents.Float.{Float64}
use mock_agents.Chaos.{
  RandSource, ChaosError, ErrorConfig, ConnectionConfig, ChaosConfig, before, new_chaos_injector,
  chaos_for, then_check, rate_limit_stage,
}
use mock_agents.Chaos.FailFirst.{
  Injector, errors_of, conns_of, errors, connections, both, before_other, error_stage_self,
  connection_stage_self,
}

-- An agent whose requests meet `n` HTTP faults, then `m` connection faults, and no rate limit.
pub record Flaky {F : Type 0} (block : Option (ChaosConfig F)) (n m : ℕ) : Type 0 where
  pub cfg : ChaosConfig F
  pub e : ErrorConfig F
  pub conn : ConnectionConfig F
  pub in_force : chaos_for block ≡ some cfg
  pub unlimited : cfg.rate_limit ≡ none
  pub failing : cfg.errors ≡ some e
  pub cutting : cfg.connection ≡ some conn
  pub errors_first : e.fail_first ≡ n
  pub conns_first : conn.fail_first ≡ m
  pub some_errors : 0 < n
  pub some_conns : 0 < m

-- How many of the requests go to an agent.
abbrev pub count : String → List (String × ℕ) → ℕ
count a [] = 0
count a ((b, now) ∷ rest) = (if str_eq b a then 1 else 0) + count a rest

module _ (f : Float64) (source : RandSource f.F) (status_text : ℕ → String) where
  abbrev pub State : Type 0
  State = Injector f source status_text

  -- The injector after requests to agents, each at its time.
  unfoldable pub after_requests :
      (String → Option (ChaosConfig f.F)) → List (String × ℕ) → State → State
  after_requests blocks [] c = c
  after_requests blocks ((b, now) ∷ rest) c =
      after_requests blocks rest (before f source status_text b (blocks b) now c).0

  -- With `k` requests served, the HTTP faults come first, then the connection faults, then none.
  abbrev pub Answer : ℕ → ℕ → ℕ → Option ChaosError → Type 0
  Answer n m k r =
      (k < n → (x : ChaosError) × (r ≡ some x) × (x.connection ≡ ""))
      × (n ≤ k → k < n + m → (x : ChaosError) × (r ≡ some x) × (x.connection ≢ ""))
      × (n + m ≤ k → r ≡ none)

  before-Flaky :
      (a : String) (block : Option (ChaosConfig f.F)) (n m now : ℕ) (c : State)
      (y : Flaky block n m)
      → before f source status_text a block now c
        ≡ both f source status_text
            (errors f source status_text a (some y.e))
            (connections f source status_text a (some y.conn))
            c
  unfolding before rate_limit_stage
  before-Flaky a block n m now c y =
      rw (y.in_force, before) (rw (y.unlimited, y.failing, y.cutting))

  before_self :
      (a : String) (block : Option (ChaosConfig f.F)) (n m now : ℕ) (c : State)
      → Flaky block n m
      → let k = errors_of f source status_text a c in
        conns_of f source status_text a c ≡ k - n
        → let r = before f source status_text a block now c in
          (errors_of f source status_text a r.0 ≡ k + 1)
          × (conns_of f source status_text a r.0 ≡ k + 1 - n)
          × Answer n m k r.1
  before_self a block n m now c y h =
      let k = errors_of f source status_text a c in
      let first = errors f source status_text a (some y.e) c in
      let second = connections f source status_text a (some y.conn) first.0 in
      let (bumped, kept, fails, recovers) =
        error_stage_self f source status_text a y.e c
          (omega (arith, y.errors_first, y.some_errors)) in
      let (kept', bumped', cuts, heals) =
        connection_stage_self f source status_text a y.conn first.0
          (omega (arith, y.conns_first, y.some_conns)) in
      elim (dec_lt k n) [
        | yes early ↦
            let (x, fired, http) = fails (omega (arith, y.errors_first)) in
            rw (before-Flaky a block n m now c y, fired, then_check)
              (
                bumped,
                omega (arith, kept, h),
                (
                  (λ _. (x, refl, http)),
                  (λ late. absurd (omega arith)),
                  (λ late. absurd (omega arith)),
                ),
              )
        | no late ↦
            rw
              (
                before-Flaky a block n m now c y,
                recovers (omega (arith, y.errors_first)),
                then_check,
              )
              (
                omega (arith, bumped, kept'),
                omega (arith, kept, h, bumped'),
                (
                  (λ early. absurd (omega arith)),
                  (λ _ early. cuts (omega (arith, y.conns_first, kept, h))),
                  (λ over. heals (omega (arith, y.conns_first, kept, h))),
                ),
              )
      ]

  after_requests-counts :
      (blocks : String → Option (ChaosConfig f.F)) (a : String) (n m : ℕ)
      (history : List (String × ℕ)) (c : State)
      → Flaky (blocks a) n m
      → let k = errors_of f source status_text a c in
        conns_of f source status_text a c ≡ k - n
        → let d = after_requests blocks history c in
          (errors_of f source status_text a d ≡ k + count a history)
          × (conns_of f source status_text a d ≡ k + count a history - n)
  unfolding after_requests
  after_requests-counts blocks a n m [] c y h = (omega arith, omega (arith, h))
  after_requests-counts blocks a n m ((b, now) ∷ rest) c y h = elim (Bool-cases (str_eq b a)) [
    | inl same ↦
        let here : b ≡ a = (eq_iff b a).0 same in
        let d = (before f source status_text a (blocks a) now c).0 in
        let (more, less, _) = before_self a (blocks a) n m now c y h in
        let (e, j) = after_requests-counts blocks a n m rest d y (omega (arith, more, less)) in
        let move : (before f source status_text b (blocks b) now c).0 ≡ d =
          ap (λ z. (before f source status_text z (blocks z) now c).0) here in
        rw (same, after_requests, move) (omega (arith, e, more), omega (arith, j, more))
    | inr other ↦
        let d = (before f source status_text b (blocks b) now c).0 in
        let (more, less) = before_other f source status_text a b (blocks b) now c other in
        let (e, j) = after_requests-counts blocks a n m rest d y (omega (arith, more, less, h)) in
        rw other (omega (arith, e, more), omega (arith, j, more))
  ]

  -- The first `n` requests of the agent get an HTTP fault, the next `m` a connection fault, and all
  -- later ones none, after any requests to this agent and to others, at any times.
  pub before_fail_first :
      (blocks : String → Option (ChaosConfig f.F)) (a : String) (n m now : ℕ) (r : source.R)
      (history : List (String × ℕ))
      → Flaky (blocks a) n m
      → let c = after_requests blocks history (new_chaos_injector f source status_text r) in
        Answer n m (count a history) (before f source status_text a (blocks a) now c).1
  unfolding new_chaos_injector lookup
  before_fail_first blocks a n m now r history y =
      let c = after_requests blocks history (new_chaos_injector f source status_text r) in
      let (e, j) =
        after_requests-counts blocks a n m history (new_chaos_injector f source status_text r) y
          (omega arith) in
      let served : errors_of f source status_text a c ≡ count a history = omega (arith, e) in
      let answer = before_self a (blocks a) n m now c y (omega (arith, e, j)) in
      subst (λ k. Answer n m k (before f source status_text a (blocks a) now c).1) served (answer.2)
