-- ===== src/Chaos.antt =====
-- internal/engine/chaos.go with its configuration (internal/types/behavior.go) and the presets of
-- internal/config/chaos_presets.go: faults that an agent's requests meet before and after the work.
-- Counts, delays and status codes are natural numbers: a negative one in a configuration, which the
-- code mostly treats as 0, is not modelled. Times are nanoseconds, a call reads the clock as its
-- argument `now`, and a sleep is a number that the call returns. A cancelled context is not modelled.
mod Config
pub mod FailFirst
pub mod Recovery
pub mod Window
pub mod Latency
pub mod Presets
mod Examples
unfoldable pub use Config.*
use Config.{LatencyConfig, RateLimitConfig, ErrorConfig, ConnectionConfig, ChaosConfig, chaos_for}
use mathlib.Core.Option.{get_or}
use mock_agents.Prelude.{
  ℕ, zero, suc, ◌+◌, ◌-◌, ◌*◌, ◌%◌, ◌^◌, ◌<◌, Bool, true, false, not, ◌&&◌, ◌||◌, String, Option,
  none, some, List, [], ◌∷◌, if◌then◌else◌, ltb, leb, ◌==◌, str_eq, Assoc, lookup, insert, length,
  get_elem?,
}
use mock_agents.Float.{Float64}

-- math/rand: a generator `R`. `intn n` lies below `n`.
pub record RandSource (F : Type 0) : Type 1 where
  pub R : Type 0
  pub float64 : R → R × F
  pub norm_float64 : R → R × F
  pub intn : ℕ → R → R × ℕ
  pub intn_lt : (n : ℕ) (r : R) → 0 < n → (intn n r).1 < n

abbrev pub millisecond : ℕ
millisecond = 1_000_000

-- `time.Duration(ms) * time.Millisecond` in int64, which wraps. A negative duration is 0 here: a
-- sleep of it does not wait, and a window of it has always passed.
unfoldable pub duration_ms : ℕ → ℕ
duration_ms ms =
    let wrapped = ms * millisecond % 2 ^ 64 in if ltb wrapped (2 ^ 63) then wrapped else 0

abbrev pub max_chaos_latency_ms : ℕ
max_chaos_latency_ms = 60_000

pub record ChaosError : Type 0 where
  pub status_code : ℕ
  pub message : String
  pub retry_after : ℕ
  pub timeout : Bool
  pub connection : String

pub record RateBucket : Type 0 where
  pub window_start : ℕ
  pub count : ℕ

-- `http.StatusText` is a parameter.
module _ (f : Float64) (source : RandSource f.F) (status_text : ℕ → String) where
  open f use {F, f_zero, f_one, add, mul, lt, of_int, to_duration}
  open source use {R, float64, norm_float64, intn}

  pub record ChaosInjector : Type 0 where
    pub rand_src : R
    pub buckets : Assoc RateBucket
    pub error_counts : Assoc ℕ
    pub conn_counts : Assoc ℕ

  unfoldable pub new_chaos_injector : R → ChaosInjector
  new_chaos_injector r = record { rand_src = r; buckets = []; error_counts = []; conn_counts = [] }

  unfoldable pub clamp_unit_interval : F → F
  clamp_unit_interval r = if lt r f_zero then f_zero else if lt f_one r then f_one else r

  abbrev pub served : String → Assoc ℕ → ℕ
  served agent counter = get_or (lookup agent counter) 0

  -- The counter that it bumps, the generator, and whether the fault fires.
  unfoldable pub should_trigger : String → F → ℕ → Assoc ℕ → R → Assoc ℕ × R × Bool
  unfolding clamp_unit_interval
  should_trigger agent rate fail_first counter r =
      let n = served agent counter + 1 in
      let drawn = float64 r in
      if ltb 0 fail_first
      then (insert agent n counter, r, leb n fail_first)
      else (counter, drawn.0, lt drawn.1 (clamp_unit_interval rate))

  -- `intn` is below the number of codes, so the default is not reached.
  unfoldable pub pick_status_code : ErrorConfig F → R → R × ℕ
  pick_status_code e r =
      let drawn = intn (length e.status_codes) r in
      if ltb 0 (length e.status_codes)
      then (drawn.0, get_or (get_elem? e.status_codes drawn.1) 0)
      else (r, e.status_code)

  -- The error that an injected HTTP fault carries. A timeout sleeps for its `retry_after` first.
  unfoldable pub injected_error : ErrorConfig F → R → R × ChaosError
  unfolding pick_status_code
  injected_error e r =
      let wait = duration_ms e.timeout_ms in
      let picked = pick_status_code e r in
      let status : ℕ = if picked.1 == 0 then 500 else picked.1 in
      let msg = if str_eq e.message "" then status_text status else e.message in
      if e.timeout
      then (
        r,
        record {
          status_code = 504;
          message = "request timed out";
          retry_after = wait;
          timeout = true;
          connection = "";
        },
      )
      else (
        picked.0,
        record {
          status_code = status;
          message = msg;
          retry_after = 0;
          timeout = false;
          connection = "";
        },
      )

  unfoldable pub maybe_inject_error :
      String → ErrorConfig F → ChaosInjector → ChaosInjector × Option ChaosError
  unfolding should_trigger injected_error
  maybe_inject_error agent e c =
      let t = should_trigger agent e.rate e.fail_first c.error_counts c.rand_src in
      let after = record c { error_counts = t.0; rand_src = t.1 } in
      let fault = injected_error e t.1 in
      if t.2 then (record after { rand_src = fault.0 }, some fault.1) else (after, none)

  unfoldable pub maybe_inject_connection_fault :
      String → ConnectionConfig F → ChaosInjector → ChaosInjector × Option ChaosError
  unfolding should_trigger
  maybe_inject_connection_fault agent cc c =
      let t = should_trigger agent cc.rate cc.fail_first c.conn_counts c.rand_src in
      let after = record c { conn_counts = t.0; rand_src = t.1 } in
      let fault : ChaosError = record {
        status_code = 0;
        message = "";
        retry_after = 0;
        timeout = false;
        connection = if str_eq cc.mode "" then "empty" else cc.mode;
      } in
      (after, if t.2 then some fault else none)

  -- A bucket whose window has passed is started again.
  unfoldable pub check_rate_limit :
      String → RateLimitConfig → ℕ → ChaosInjector → ChaosInjector × Option ChaosError
  check_rate_limit agent rl now c =
      let window = duration_ms rl.window_ms in
      let store = λ (b : RateBucket). record c { buckets = insert agent b c.buckets } in
      let fresh : RateBucket = record { window_start = now; count = 1 } in
      if rl.window_ms == 0 then (c, none) else elim (lookup agent c.buckets) [
        | none ↦ (store fresh, none)
        | some b ↦
            let n = b.count + 1 in
            let refused : ChaosError = record {
              status_code = 429;
              message = "rate limit exceeded";
              retry_after = window - (now - b.window_start);
              timeout = false;
              connection = "";
            } in
            if leb window (now - b.window_start)
            then (store fresh, none)
            else (store (record b { count = n }), if ltb rl.requests n then some refused else none)
      ]

  abbrev pub Guarded : Type 0
  Guarded = ChaosInjector → ChaosInjector × Option ChaosError

  -- Stops at the first fault.
  abbrev pub then_check : Guarded → Guarded → Guarded
  then_check first second c =
      let r = first c in elim r.1 [ none ↦ second r.0 | some fault ↦ (r.0, some fault) ]

  abbrev pub pass : Guarded
  pass c = (c, none)

  unfoldable pub rate_limit_stage : String → ℕ → Option RateLimitConfig → Guarded
  rate_limit_stage agent now none c = (c, none)
  rate_limit_stage agent now (some rl) c =
      if ltb 0 rl.requests then check_rate_limit agent rl now c else (c, none)

  unfoldable pub error_stage : String → Option (ErrorConfig F) → Guarded
  error_stage agent none c = (c, none)
  error_stage agent (some e) c =
      if lt f_zero e.rate || ltb 0 e.fail_first then maybe_inject_error agent e c else (c, none)

  unfoldable pub connection_stage : String → Option (ConnectionConfig F) → Guarded
  connection_stage agent none c = (c, none)
  connection_stage agent (some cc) c =
      if lt f_zero cc.rate || ltb 0 cc.fail_first
      then maybe_inject_connection_fault agent cc c
      else (c, none)

  unfoldable pub before : String → Option (ChaosConfig F) → ℕ → Guarded
  unfolding chaos_for
  before agent block now c = elim (chaos_for block) [
    | none ↦ (c, none)
    | some cfg ↦
        then_check (rate_limit_stage agent now cfg.rate_limit)
          (then_check (error_stage agent cfg.errors) (connection_stage agent cfg.connection)) c
  ]

  abbrev fixed_latency : LatencyConfig → R → R × ℕ
  fixed_latency l r = (r, duration_ms l.min_ms)

  unfoldable pub uniform_latency : LatencyConfig → R → R × ℕ
  uniform_latency l r =
      let drawn = intn (l.max_ms - l.min_ms + 1) r in
      if leb l.max_ms l.min_ms
      then fixed_latency l r
      else (drawn.0, duration_ms (l.min_ms + drawn.1))

  unfoldable pub normal_latency : LatencyConfig → R → R × ℕ
  normal_latency l r =
      let drawn = norm_float64 r in
      let ms = add (mul drawn.1 (of_int l.stddev_ms)) (of_int l.mean_ms) in
      let floored = if lt ms f_zero then f_zero else ms in
      let cap = of_int max_chaos_latency_ms in
      (drawn.0, duration_ms (to_duration (if lt cap floored then cap else floored)))

  -- The `switch` on the distribution.
  unfoldable pub latency_by : String → LatencyConfig → R → R × ℕ
  latency_by dist l r =
      if str_eq dist "fixed"
      then fixed_latency l r
      else if str_eq dist "uniform"
      then uniform_latency l r
      else if str_eq dist "normal"
      then normal_latency l r
      else fixed_latency l r

  abbrev pub default_distribution : LatencyConfig → String
  default_distribution l = if ltb l.min_ms l.max_ms then "uniform" else "fixed"

  -- The delay, in nanoseconds.
  unfoldable pub sample_latency : LatencyConfig → R → R × ℕ
  sample_latency l r =
      latency_by (if str_eq l.distribution "" then default_distribution l else l.distribution) l r

  -- The injector, and the time that the request sleeps.
  unfoldable pub after : Option (ChaosConfig F) → ChaosInjector → ChaosInjector × ℕ
  unfolding chaos_for
  after block c = elim (chaos_for block) [
    | none ↦ (c, 0)
    | some cfg ↦ elim cfg.latency [
      | none ↦ (c, 0)
      | some l ↦ let s = sample_latency l c.rand_src in (record c { rand_src = s.0 }, s.1)
    ]
  ]
