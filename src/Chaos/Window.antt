-- ===== src/Chaos/Window.antt =====
-- The rate-limit window of internal/engine/chaos.go.
use mock_agents.Prelude.{
  ℕ, suc, ◌+◌, ◌-◌, ◌≤◌, ◌<◌, true, false, String, Option, none, some, List, [], ◌∷◌, ◌≡◌, refl, ap,
  subst, ◌⊎◌, inl, inr, arith, ◌==◌, lookup, insert, lookup-insert_self, lt→ltb, le→leb,
  le→ltb_false, lt→leb_false, lt→==_false,
}
use native.Mathlib.Decide.{dec_lt}
use mock_agents.Float.{Float64}
use mock_agents.Chaos.{
  RandSource, ChaosError, RateBucket, RateLimitConfig, ChaosInjector, duration_ms, check_rate_limit,
}

abbrev pub window : RateLimitConfig → ℕ
window rl = duration_ms rl.window_ms

zero_test : (n : ℕ) → ¬ (0 < n) → (n == 0) ≡ true
zero_test n h = ground arith

not_both : (r : Option ChaosError) (x : ChaosError) → r ≡ none → r ≡ some x → ⊥
not_both r x p q = cc

same_retry :
    (late : ℕ) (r : Option ChaosError) (x y : ChaosError)
    → r ≡ some x
    → r ≡ some y
    → x.retry_after ≤ late
    → y.retry_after ≤ late
same_retry late r x y p q h =
    let e : x ≡ y = cc in subst (λ (z : ChaosError). z.retry_after ≤ late) e h

module _ (f : Float64) (source : RandSource f.F) (status_text : ℕ → String) where
  abbrev pub Injector : Type 0
  Injector = ChaosInjector f source status_text

  -- The agent has no window at this time: none was opened, or the last one has passed.
  abbrev pub Stale : String → RateLimitConfig → ℕ → Injector → Type 0
  Stale a rl now c =
      (lookup a c.buckets ≡ none)
      ⊎ ((b : RateBucket) × (lookup a c.buckets ≡ some b) × (window rl ≤ now - b.window_start))

  -- Requests at some times, and how many of them pass.
  unfoldable pub passes : String → RateLimitConfig → List ℕ → Injector → Injector × ℕ
  passes a rl [] c = (c, 0)
  passes a rl (now ∷ later) c =
      let r = check_rate_limit f source status_text a rl now c in
      let rest = passes a rl later r.0 in (rest.0, elim r.1 [ none ↦ suc rest.1 | some _ ↦ rest.1 ])

  abbrev store : String → RateBucket → Injector → Injector
  store a b c = record c { buckets = insert a b c.buckets }

  check-Stale :
      (a : String) (rl : RateLimitConfig) (now : ℕ) (c : Injector)
      → 0 < rl.window_ms
      → Stale a rl now c
      → check_rate_limit f source status_text a rl now c
        ≡ (store a (record { window_start = now; count = 1 }) c, none)
  unfolding check_rate_limit
  check-Stale a rl now c w (inl e) = rw (lt→==_false rl.window_ms w, check_rate_limit, e)
  check-Stale a rl now c w (inr (b, e, old)) =
      rw (lt→==_false rl.window_ms w, check_rate_limit, e, le→leb (window rl) _ old)

  check_within :
      (a : String) (rl : RateLimitConfig) (now : ℕ) (c : Injector) (b : RateBucket)
      → 0 < rl.window_ms
      → lookup a c.buckets ≡ some b
      → now - b.window_start < window rl
      → let r = check_rate_limit f source status_text a rl now c in
        (r.0 ≡ store a (record b { count = b.count + 1 }) c)
        × (b.count < rl.requests → r.1 ≡ none)
        × (rl.requests ≤ b.count
            → (x : ChaosError) × (r.1 ≡ some x)
              × (x.status_code ≡ 429)
              × (x.retry_after ≡ window rl - (now - b.window_start)))
  unfolding check_rate_limit
  check_within a rl now c b w found inside =
      rw (lt→==_false rl.window_ms w, check_rate_limit, found, lt→leb_false (window rl) _ inside)
        (
          refl,
          (λ room. rw (le→ltb_false rl.requests (b.count + 1) (omega arith))),
          (λ full. (refusal, rw (lt→ltb rl.requests (b.count + 1) (omega arith)), refl, refl)),
        )
    where
      refusal : ChaosError
      refusal = record {
        status_code = 429;
        message = "rate limit exceeded";
        retry_after = window rl - (now - b.window_start);
        timeout = false;
        connection = "";
      }

  refused_window :
      (a : String) (rl : RateLimitConfig) (now : ℕ) (c : Injector) (x : ChaosError)
      → (check_rate_limit f source status_text a rl now c).1 ≡ some x
      → 0 < rl.window_ms
  unfolding check_rate_limit
  refused_window a rl now c x refused = elim (dec_lt 0 rl.window_ms) [
    | yes open_window ↦ open_window
    | no closed ↦ absurd (not_both _ x (rw (zero_test rl.window_ms closed)) refused)
  ]

  -- A request that is refused gets through when it comes again after `retry_after`, or later, if the
  -- agent has no request in between and the clock has not gone back.
  pub check_retry :
      (a : String) (rl : RateLimitConfig) (now late : ℕ) (c : Injector) (b : RateBucket)
      (x : ChaosError)
      → lookup a c.buckets ≡ some b
      → b.window_start ≤ now
      → let r = check_rate_limit f source status_text a rl now c in
        r.1 ≡ some x
        → x.retry_after ≤ late
        → (check_rate_limit f source status_text a rl (now + late) r.0).1 ≡ none
  check_retry a rl now late c b x found after refused waited =
      let w = refused_window a rl now c x refused in
      elim (dec_lt (now - b.window_start) (window rl)) [
        | yes inside ↦
            let (moved, room, full) = check_within a rl now c b w found inside in
            elim (dec_lt b.count rl.requests) [
              | yes more ↦ absurd (not_both _ x (room more) refused)
              | no none_left ↦
                  let (y, same, _, wait) = full (omega arith) in
                  let next : RateBucket = record b { count = b.count + 1 } in
                  let asked : y.retry_after ≤ late = same_retry late _ x y refused same waited in
                  rw moved (
                    ap (λ (r : Injector × Option ChaosError). r.1)
                      (check-Stale a rl (now + late) (store a next c) w
                        (inr (next, lookup-insert_self a next c.buckets, omega arith))))
            ]
        | no over ↦ absurd (
            not_both _ x
              (ap (λ (r : Injector × Option ChaosError). r.1)
                (check-Stale a rl now c w (inr (b, found, omega arith))))
              refused)
      ]
