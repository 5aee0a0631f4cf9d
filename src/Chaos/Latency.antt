-- ===== src/Chaos/Latency.antt =====
-- How long an injected latency of internal/engine/chaos.go may be.
use mock_agents.Prelude.{
  ℕ, ◌+◌, ◌-◌, ◌*◌, ◌≤◌, ◌<◌, leb, Bool, true, false, String, ◌≡◌, refl, inl, inr, arith,
  if◌then◌else◌, ltb, str_eq, Bool-cases, subst, sym, eq_iff,
}
use native.Mathlib.Nat.{mul-le-mul_right}
use mock_agents.Float.{Float64}
use mock_agents.Chaos.{
  RandSource, LatencyConfig, millisecond, duration_ms, max_chaos_latency_ms, default_distribution,
  uniform_latency, normal_latency, latency_by, sample_latency,
}

-- The conversion of a float64 to an integer keeps the order at the whole numbers up to the cap,
-- which a float64 holds exactly.
pub record FloatTrunc (f : Float64) : Type 0 where
  pub trunc_le :
      (x : f.F) (n : ℕ)
      → n ≤ max_chaos_latency_ms
      → f.lt (f.of_int n) x ≡ false
      → f.to_duration x ≤ n
  pub not_less : (n : ℕ) → n ≤ max_chaos_latency_ms → f.lt (f.of_int n) (f.of_int n) ≡ false

abbrev pub max_duration_ms : ℕ
max_duration_ms = 9_223_372_036_854

duration_ms_exact : (n : ℕ) → n ≤ max_duration_ms → duration_ms n ≡ n * millisecond
unfolding duration_ms
duration_ms_exact n h = ground arith

duration_ms-le :
    (n : ℕ) → n ≤ max_chaos_latency_ms → duration_ms n ≤ max_chaos_latency_ms * millisecond
duration_ms-le n h = rw (duration_ms_exact n (omega (arith, h))) (mul-le-mul_right millisecond h)

keep_normal : (d e : String) → d ≡ "normal" → (if str_eq d "" then e else d) ≡ "normal"
keep_normal d e h = subst (λ x. (if str_eq x "" then e else x) ≡ "normal") (sym h) refl

default_not_normal : (b : Bool) → str_eq (if b then "uniform" else "fixed") "normal" ≡ false
default_not_normal true = refl
default_not_normal false = refl

module _ (f : Float64) (source : RandSource f.F) (status_text : ℕ → String) where
  -- Between the lower end and the larger of both.
  abbrev pub InRange : LatencyConfig → ℕ → Type 0
  InRange l d =
      (l.min_ms * millisecond ≤ d)
      × (d ≤ (if ltb l.min_ms l.max_ms then l.max_ms else l.min_ms) * millisecond)

  -- The ends are durations that int64 holds: at most some 292 years.
  abbrev pub Fits : LatencyConfig → Type 0
  Fits l = (l.min_ms ≤ max_duration_ms) × (l.max_ms ≤ max_duration_ms)

  fixed-InRange : (l : LatencyConfig) → Fits l → InRange l (duration_ms l.min_ms)
  fixed-InRange l fits = rw (duration_ms_exact l.min_ms fits.0) (ground arith)

  uniform_latency-InRange :
      (l : LatencyConfig) (r : source.R)
      → Fits l
      → InRange l (uniform_latency f source status_text l r).1
  unfolding uniform_latency
  uniform_latency-InRange l r fits =
      let drawn = source.intn_lt (l.max_ms - l.min_ms + 1) r (omega arith) in
      elim (Bool-cases (leb l.max_ms l.min_ms)) [
        | inl one ↦ rw one (fixed-InRange l fits)
        | inr more ↦ rw more (in_range l _ fits more drawn)
      ]
    where
      in_range :
          (l : LatencyConfig) (n : ℕ)
          → Fits l
          → leb l.max_ms l.min_ms ≡ false
          → n < l.max_ms - l.min_ms + 1
          → InRange l (duration_ms (l.min_ms + n))
      in_range l n fits more drawn =
          rw (duration_ms_exact (l.min_ms + n) (ground (arith, more, drawn, fits.1)))
            (ground (arith, more, drawn))

  capped-le :
      FloatTrunc f
      → (x : f.F) (n : ℕ) → n ≤ max_chaos_latency_ms
      → f.to_duration (if f.lt (f.of_int n) x then f.of_int n else x) ≤ n
  capped-le t x n small = elim (Bool-cases (f.lt (f.of_int n) x)) [
    | inl over ↦ rw over (t.trunc_le (f.of_int n) n small (t.not_less n small))
    | inr within ↦ rw within (t.trunc_le x n small within)
  ]

  normal_latency-le :
      FloatTrunc f
      → (l : LatencyConfig) (r : source.R)
      → (normal_latency f source status_text l r).1 ≤ max_chaos_latency_ms * millisecond
  unfolding normal_latency
  normal_latency-le t l r = duration_ms-le _ (capped-le t _ max_chaos_latency_ms (omega arith))

  latency_by-InRange :
      (dist : String) (l : LatencyConfig) (r : source.R)
      → str_eq dist "normal" ≡ false
      → Fits l
      → InRange l (latency_by f source status_text dist l r).1
  unfolding latency_by
  latency_by-InRange dist l r h fits = elim (Bool-cases (str_eq dist "fixed")) [
    | inl fixed ↦ rw fixed (fixed-InRange l fits)
    | inr other ↦ elim (Bool-cases (str_eq dist "uniform")) [
      | inl uniform ↦ rw (other, uniform) (uniform_latency-InRange l r fits)
      | inr neither ↦ rw (other, neither, h) (fixed-InRange l fits)
    ]
  ]

  -- Where `min_ms` and `max_ms` are durations that int64 holds, an injected delay lies between
  -- `min_ms` and the larger of both, but for the normal distribution, where it is at most 60,000 ms
  -- whatever they are.
  pub sample_latency_bounds :
      FloatTrunc f
      → (l : LatencyConfig) (r : source.R)
      → let d = (sample_latency f source status_text l r).1 in
        (str_eq l.distribution "normal" ≡ true → d ≤ max_chaos_latency_ms * millisecond)
        × (str_eq l.distribution "normal" ≡ false → Fits l → InRange l d)
  unfolding sample_latency latency_by
  sample_latency_bounds t l r = (
    (λ normal.
        subst
          (λ dist.
            (latency_by f source status_text dist l r).1 ≤ max_chaos_latency_ms * millisecond)
          (sym (keep_normal l.distribution _ ((eq_iff l.distribution "normal").0 normal)))
          (normal_latency-le t l r)),
    (λ other fits. elim (Bool-cases (str_eq l.distribution "")) [
      | inl unset ↦ rw unset (
          latency_by-InRange (default_distribution f source status_text l) l r
            (default_not_normal (ltb l.min_ms l.max_ms)) fits)
      | inr set ↦ rw set (latency_by-InRange l.distribution l r other fits)
    ]),
  )
