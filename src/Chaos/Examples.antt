-- ===== src/Chaos/Examples.antt =====
-- A generator that always draws the same, and agents with faults.
use mock_agents.Prelude.{
  ℕ, ◌+◌, ◌*◌, ◌≤◌, false, String, Option, none, some, List, [], ◌∷◌, ◌≡◌, ◌≢◌, refl, arith, lookup,
  insert,
}
use mock_agents.Samples.{whole, last}
use mock_agents.Chaos.{
  ChaosError, ChaosConfig, LatencyConfig, RateLimitConfig, chaos_for, millisecond, duration_ms,
  before, sample_latency, check_rate_limit, new_chaos_injector,
}
use mock_agents.Chaos.Recovery.{Flaky, after_requests, before_fail_first}
use mock_agents.Chaos.Window.{Injector, check_retry}
use mock_agents.Chaos.Latency.{FloatTrunc, sample_latency_bounds}
use mock_agents.Chaos.Presets.{expand_chaos_preset, expand_chaos_preset_lem}

abbrev text : ℕ → String
text status = "error"

abbrev injector : Injector whole last text
unfolding new_chaos_injector
injector = new_chaos_injector whole last text tt

-- Two HTTP faults, then one connection fault.
abbrev flaky : ChaosConfig ℕ
flaky = record {
  enabled = false;
  preset = "";
  latency = none;
  errors = some (record {
    rate = 0;
    status_code = 503;
    status_codes = [];
    timeout = false;
    timeout_ms = 0;
    message = "";
    fail_first = 2;
  });
  rate_limit = none;
  connection = some (record { mode = ""; rate = 0; fail_first = 1 });
}

flaky-Flaky : Flaky (some flaky) 2 1
unfolding chaos_for
flaky-Flaky = record {
  cfg = flaky;
  e = _;
  conn = _;
  in_force = refl;
  unlimited = refl;
  failing = refl;
  cutting = refl;
  errors_first = refl;
  conns_first = refl;
  some_errors = omega arith;
  some_conns = omega arith;
}

abbrev blocks : String → Option (ChaosConfig ℕ)
blocks name = some flaky

abbrev history : List (String × ℕ)
history = ("a", 5) ∷ ("b", 6) ∷ ("a", 7) ∷ []

-- The third request of "a" is cut.
before_fail_first_example :
    (x : ChaosError) × ((before whole last text "a"
        (some flaky)
        9
        (after_requests whole last text blocks history (new_chaos_injector whole last text tt))).1
      ≡ some x)
    × (x.connection ≢ "")
before_fail_first_example =
    (before_fail_first whole last text blocks "a" 2 1 9 tt history flaky-Flaky).1 (omega arith)
      (omega arith)

abbrev two_a_second : RateLimitConfig
two_a_second = record { requests = 2; window_ms = 1000 }

abbrev full : Injector whole last text
unfolding injector insert
full = record injector { buckets = insert "a" (record { window_start = 10; count = 2 }) [] }

check_retry_example :
    (check_rate_limit whole last text "a" two_a_second
      (500 + 999_999_510)
      (check_rate_limit whole last text "a" two_a_second 500 full).0).1
    ≡ none
unfolding full check_rate_limit lookup duration_ms
check_retry_example =
    check_retry whole last text "a" two_a_second 500 999_999_510 full
      (record { window_start = 10; count = 2 })
      (record {
        status_code = 429;
        message = "rate limit exceeded";
        retry_after = 999_999_510;
        timeout = false;
        connection = "";
      })
      refl (omega arith) refl (omega arith)

whole_trunc : FloatTrunc whole
whole_trunc = record { trunc_le = λ x n small h. ground arith; not_less = λ n small. ground arith }

abbrev normal : LatencyConfig
normal = record {
  distribution = "normal";
  min_ms = 0;
  max_ms = 0;
  mean_ms = 50_000;
  stddev_ms = 20_000;
}

sample_latency_bounds_example : (sample_latency whole last text normal tt).1 ≤ 60_000 * millisecond
sample_latency_bounds_example = (sample_latency_bounds whole last text whole_trunc normal tt).0 refl

expand_chaos_preset_lem_example :
    let d = expand_chaos_preset whole (record flaky { preset = "slow" }) in
    expand_chaos_preset whole d ≡ d
expand_chaos_preset_lem_example =
    (expand_chaos_preset_lem whole (record flaky { preset = "slow" })).1
