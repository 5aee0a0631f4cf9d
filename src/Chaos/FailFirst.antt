-- ===== src/Chaos/FailFirst.antt =====
-- The fail-first triggers of internal/engine/chaos.go, per agent and per kind of fault.
use mathlib.Core.Bool.{false≢true}
use mathlib.Core.Option.{get_or}
use mock_agents.Prelude.{
  ℕ, ◌+◌, ◌≤◌, ◌<◌, Bool, true, false, ◌||◌, String, Option, none, some, ◌≡◌, ◌≢◌, refl, sym, ◌∙◌,
  ap, inl, inr, arith, if◌then◌else◌, ltb, leb, str_eq, str_eq_refl, Bool-cases, lookup, insert,
  lookup-insert, Assoc, lt→ltb, Option-cases, eq_iff,
}
use mock_agents.Float.{Float64}
use mock_agents.Chaos.{
  RandSource, ChaosError, ErrorConfig, ConnectionConfig, RateLimitConfig, ChaosConfig,
  ChaosInjector, served, should_trigger, maybe_inject_error, maybe_inject_connection_fault,
  check_rate_limit, rate_limit_stage, error_stage, connection_stage, before, chaos_for, Guarded,
  then_check, injected_error,
}

served_other :
    (a b : String) (n : ℕ) (counter : Assoc ℕ)
    → str_eq b a ≡ false
    → get_or (lookup a (insert b n counter)) 0 ≡ get_or (lookup a counter) 0
served_other a b n counter h = rw (lookup-insert b a n counter, h)

served_self :
    (a : String) (n : ℕ) (counter : Assoc ℕ) → get_or (lookup a (insert a n counter)) 0 ≡ n
served_self a n counter = rw (lookup-insert a a n counter, str_eq_refl a)

or_true : (b : Bool) → (b || true) ≡ true
or_true true = refl
or_true false = refl

default_mode : (mode : String) → (if str_eq mode "" then "empty" else mode) ≢ ""
default_mode mode = elim (Bool-cases (str_eq mode "")) [
  | inl blank ↦ rw blank (λ same. cc)
  | inr named ↦ rw named (λ same. false≢true (sym named ∙ (eq_iff mode "").1 same))
]

module _ (f : Float64) (source : RandSource f.F) (status_text : ℕ → String) where
  abbrev pub Injector : Type 0
  Injector = ChaosInjector f source status_text

  abbrev pub errors_of : String → Injector → ℕ
  errors_of a c = served f source status_text a c.error_counts

  abbrev pub conns_of : String → Injector → ℕ
  conns_of a c = served f source status_text a c.conn_counts

  -- Neither counter of `a` moves.
  abbrev pub Same : String → Injector → Injector → Type 0
  Same a c d = (errors_of a d ≡ errors_of a c) × (conns_of a d ≡ conns_of a c)

  check_rate_limit-counts :
      (b : String) (rl : RateLimitConfig) (now : ℕ) (c : Injector)
      → let d = (check_rate_limit f source status_text b rl now c).0 in
        (d.error_counts ≡ c.error_counts) × (d.conn_counts ≡ c.conn_counts)
  unfolding check_rate_limit
  check_rate_limit-counts b rl now c = ground arith

  rate_limit_stage-counts :
      (b : String) (now : ℕ) (rl : Option RateLimitConfig) (c : Injector)
      → let d = (rate_limit_stage f source status_text b now rl c).0 in
        (d.error_counts ≡ c.error_counts) × (d.conn_counts ≡ c.conn_counts)
  unfolding rate_limit_stage
  rate_limit_stage-counts b now none c = (refl, refl)
  rate_limit_stage-counts b now (some rl) c = ground (arith, check_rate_limit-counts b rl now c)

  should_trigger_other :
      (a b : String) (rate : f.F) (n : ℕ) (counter : Assoc ℕ) (r : source.R)
      → str_eq b a ≡ false
      → get_or (lookup a (should_trigger f source status_text b rate n counter r).0) 0
        ≡ get_or (lookup a counter) 0
  unfolding should_trigger
  should_trigger_other a b rate n counter r h = elim (Bool-cases (ltb 0 n)) [
    | inl first ↦ rw first (served_other a b _ counter h)
    | inr always ↦ rw always
  ]

  maybe_inject_error-counts :
      (b : String) (e : ErrorConfig f.F) (c : Injector)
      → let d = (maybe_inject_error f source status_text b e c).0 in
        (d.error_counts
          ≡ (should_trigger f source status_text b e.rate e.fail_first c.error_counts c.rand_src).0)
        × (d.conn_counts ≡ c.conn_counts)
  unfolding maybe_inject_error
  maybe_inject_error-counts b e c =
      let t = should_trigger f source status_text b e.rate e.fail_first c.error_counts c.rand_src in
      elim (Bool-cases t.2) [
        | inl fires ↦ rw fires (refl, refl)
        | inr quiet ↦ rw quiet (refl, refl)
      ]

  error_stage_other :
      (a b : String) (e : Option (ErrorConfig f.F)) (c : Injector)
      → str_eq b a ≡ false
      → Same a c (error_stage f source status_text b e c).0
  unfolding error_stage
  error_stage_other a b none c h = (refl, refl)
  error_stage_other a b (some e) c h =
      let (errs, conns) = maybe_inject_error-counts b e c in
      let moved = should_trigger_other a b e.rate e.fail_first c.error_counts c.rand_src h in
      elim (Bool-cases (f.lt f.f_zero e.rate || ltb 0 e.fail_first)) [
        | inl active ↦ rw active (
          ap (λ (m : Assoc ℕ). get_or (lookup a m) 0) errs ∙ moved,
          ap (λ (m : Assoc ℕ). get_or (lookup a m) 0) conns,
        )
        | inr idle ↦ rw idle (refl, refl)
      ]

  connection_stage_other :
      (a b : String) (conn : Option (ConnectionConfig f.F)) (c : Injector)
      → str_eq b a ≡ false
      → Same a c (connection_stage f source status_text b conn c).0
  unfolding connection_stage maybe_inject_connection_fault
  connection_stage_other a b none c h = (refl, refl)
  connection_stage_other a b (some conn) c h =
      let moved = should_trigger_other a b conn.rate conn.fail_first c.conn_counts c.rand_src h in
      elim (Bool-cases (f.lt f.f_zero conn.rate || ltb 0 conn.fail_first)) [
        | inl active ↦ rw active (refl, moved)
        | inr idle ↦ rw idle (refl, refl)
      ]

  abbrev pub Stage : Type 0
  Stage = Guarded f source status_text

  abbrev pub rate_limits : String → ℕ → Option RateLimitConfig → Stage
  rate_limits = rate_limit_stage f source status_text

  abbrev pub errors : String → Option (ErrorConfig f.F) → Stage
  errors = error_stage f source status_text

  abbrev pub connections : String → Option (ConnectionConfig f.F) → Stage
  connections = connection_stage f source status_text

  abbrev pub both : Stage → Stage → Stage
  both = then_check f source status_text

  abbrev Keeps : String → Stage → Type 0
  Keeps a g = (c : Injector) → Same a c (g c).0

  Keeps-then_check :
      (a : String) (first second : Stage)
      → Keeps a first
      → Keeps a second
      → Keeps a (both first second)
  Keeps-then_check a first second k l c = elim (Option-cases (first c).1) [
    | inl quiet ↦
        let (e, n) = k c in let (e', n') = l (first c).0 in rw (quiet, then_check) (e' ∙ e, n' ∙ n)
    | inr (fault, fired) ↦ rw (fired, then_check) (k c)
  ]

  rate_limit_stage-Keeps :
      (a b : String) (now : ℕ) (rl : Option RateLimitConfig) → Keeps a (rate_limits b now rl)
  rate_limit_stage-Keeps a b now rl c =
      let (e, n) = rate_limit_stage-counts b now rl c in
      (ap (λ (m : Assoc ℕ). get_or (lookup a m) 0) e, ap (λ (m : Assoc ℕ). get_or (lookup a m) 0) n)

  pub before_other :
      (a b : String) (block : Option (ChaosConfig f.F)) (now : ℕ) (c : Injector)
      → str_eq b a ≡ false
      → Same a c (before f source status_text b block now c).0
  unfolding before
  before_other a b block now c h = elim (Option-cases (chaos_for block)) [
    | inl off ↦ rw (off, before) (refl, refl)
    | inr (cfg, on) ↦
        rw (on, before)
          (Keeps-then_check a (rate_limits b now cfg.rate_limit)
            (both (errors b cfg.errors) (connections b cfg.connection))
            (rate_limit_stage-Keeps a b now cfg.rate_limit)
            (Keeps-then_check a (errors b cfg.errors) (connections b cfg.connection)
              (λ d. error_stage_other a b cfg.errors d h)
              (λ d. connection_stage_other a b cfg.connection d h))
            c)
  ]

  injected_error-connection :
      (e : ErrorConfig f.F) (r : source.R)
      → (injected_error f source status_text e r).1.connection ≡ ""
  unfolding injected_error
  injected_error-connection e r = elim (Bool-cases e.timeout) [
    | inl slow ↦ rw slow
    | inr fast ↦ rw fast
  ]

  pub error_stage_self :
      (a : String) (e : ErrorConfig f.F) (c : Injector)
      → 0 < e.fail_first
      → let r = errors a (some e) c in
        let k = errors_of a c in
        (errors_of a r.0 ≡ k + 1)
        × (conns_of a r.0 ≡ conns_of a c)
        × (k < e.fail_first → (x : ChaosError) × (r.1 ≡ some x) × (x.connection ≡ ""))
        × (e.fail_first ≤ k → r.1 ≡ none)
  unfolding error_stage maybe_inject_error
  error_stage_self a e c h =
      let k = errors_of a c + 1 in
      elim (Bool-cases (leb k e.fail_first)) [
        | inl fires ↦
            rw (lt→ltb 0 e.fail_first h, or_true, fires)
              (
                served_self a k c.error_counts,
                refl,
                λ _. (_, refl, injected_error-connection e c.rand_src),
                λ late. absurd (ground arith),
              )
        | inr quiet ↦
            rw (lt→ltb 0 e.fail_first h, or_true, quiet)
              (served_self a k c.error_counts, refl, λ early. absurd (ground arith), λ _. refl)
      ]

  pub connection_stage_self :
      (a : String) (conn : ConnectionConfig f.F) (c : Injector)
      → 0 < conn.fail_first
      → let r = connections a (some conn) c in
        let k = conns_of a c in
        (errors_of a r.0 ≡ errors_of a c)
        × (conns_of a r.0 ≡ k + 1)
        × (k < conn.fail_first → (x : ChaosError) × (r.1 ≡ some x) × (x.connection ≢ ""))
        × (conn.fail_first ≤ k → r.1 ≡ none)
  unfolding connection_stage maybe_inject_connection_fault
  connection_stage_self a conn c h =
      let k = conns_of a c + 1 in
      elim (Bool-cases (leb k conn.fail_first)) [
        | inl fires ↦
            rw (lt→ltb 0 conn.fail_first h, or_true, fires)
              (
                refl,
                served_self a k c.conn_counts,
                λ _. (_, refl, default_mode conn.mode),
                λ late. absurd (ground arith),
              )
        | inr quiet ↦
            rw (lt→ltb 0 conn.fail_first h, or_true, quiet)
              (refl, served_self a k c.conn_counts, λ early. absurd (ground arith), λ _. refl)
      ]
