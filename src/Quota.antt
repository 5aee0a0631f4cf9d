-- ===== src/Quota.antt =====
-- internal/quota/quota.go: per-tenant request rates and monthly spend caps.
-- float64 is a parameter: the type of its finite values, with the operations that the code calls.
-- The shared spend ledger and the UTC month of a time are parameters too. Times are nanoseconds; a
-- call reads the clock as its argument `now`, and runs as one step.
pub mod RateLimit
pub mod Spend
mod Examples
use mathlib.Core.Option.{get_or}
use mock_agents.Prelude.{
  ℕ, zero, suc, ◌+◌, ◌-◌, ◌*◌, Bool, true, false, not, ◌||◌, String, Option, none, some,
  if◌then◌else◌, ltb, str_eq, ℤ, pos, negsuc, Assoc, lookup, insert, List, [],
}
use mock_agents.Float.{Float64}

-- quota.SpendBackend over a ledger `L`: each call may fail, and then gives no total.
pub record SpendBackend (F : Type 0) : Type 1 where
  pub L : Type 0
  pub add_spend : L → String → String → F → L × Option F
  pub get_spend : L → String → String → Option F

abbrev pub second : ℕ
second = 1_000_000_000

abbrev pub spend_cache_ttl : ℕ
spend_cache_ttl = 5 * second

module _ (f : Float64) where
  open f use {
    F, f_zero, f_one, add, sub, mul, div, lt, le, math_min, math_max, of_int, seconds, to_duration,
  }

  pub record Config : Type 0 where
    pub rate_per_sec : F
    pub rate_burst : ℤ
    pub monthly_spend_usd : F

  pub record Bucket : Type 0 where
    pub tokens : F
    pub last : ℕ

  pub record Counter : Type 0 where
    pub month : String
    pub usd : F
    pub expiry : ℕ

  pub burst_or : ℤ → F → F
  burst_or (pos zero) d = d
  burst_or (pos (suc n)) d = of_int (suc n)
  burst_or (negsuc n) d = d

  unfoldable pub capacity_for : Config → F
  unfolding burst_or
  capacity_for c = burst_or c.rate_burst (math_max f_one c.rate_per_sec)

  -- The bucket of a tenant after the refill, a full one for a new tenant.
  unfoldable pub refill : Config → ℕ → Option Bucket → Bucket
  refill cfg now found =
      let cap = capacity_for cfg in
      let b : Bucket = get_or found (record { tokens = cap; last = now }) in
      if ltb b.last now
      then (record {
        tokens = math_min cap (add b.tokens (mul (seconds (now - b.last)) cfg.rate_per_sec));
        last = now;
      })
      else b

  module _ (backend : SpendBackend F) (month_of : ℕ → String) where
    open backend use {L, add_spend, get_spend}

    pub record Enforcer : Type 0 where
      pub defaults : Config
      pub overrides : Assoc Config
      pub buckets : Assoc Bucket
      pub spend_cache : Assoc Counter
      pub spend_backend : Option L

    unfoldable pub new_enforcer : Config → Enforcer
    new_enforcer defaults = record {
      defaults = defaults;
      overrides = [];
      buckets = [];
      spend_cache = [];
      spend_backend = none;
    }

    unfoldable pub set_override : String → Config → Enforcer → Enforcer
    set_override tenant c e =
        if str_eq tenant "" then e else record e { overrides = insert tenant c e.overrides }

    unfoldable pub set_spend_backend : Option L → Enforcer → Enforcer
    set_spend_backend b e = record e { spend_backend = b }

    unfoldable pub effective : String → Enforcer → Config
    effective tenant e = get_or (lookup tenant e.overrides) e.defaults

    -- The result: the new state, whether the request is allowed, and the time to wait.
    unfoldable pub allow_request : String → ℕ → Enforcer → Enforcer × Bool × ℕ
    unfolding effective
    allow_request tenant now e =
        let cfg = effective tenant e in
        let b = refill cfg now (lookup tenant e.buckets) in
        let spent : Bucket = record b { tokens = sub b.tokens f_one } in
        let need = sub f_one b.tokens in
        let retry = to_duration (mul (div need cfg.rate_per_sec) (of_int second)) in
        if str_eq tenant "" || le cfg.rate_per_sec f_zero
        then (e, true, 0)
        else if le f_one b.tokens
        then (record e { buckets = insert tenant spent e.buckets }, true, 0)
        else (record e { buckets = insert tenant b e.buckets }, false, retry)

    -- `counterForMonthLocked`: the counter, started again when the month differs. The caller
    -- stores it.
    unfoldable pub counter_for_month : String → String → Enforcer → Counter
    counter_for_month tenant month e = elim (lookup tenant e.spend_cache) [
      | none ↦ record { month = month; usd = f_zero; expiry = 0 }
      | some c ↦
          if str_eq c.month month then c else record { month = month; usd = f_zero; expiry = 0 }
    ]

    abbrev pub store_counter : String → Counter → Enforcer → Enforcer
    store_counter tenant c e = record e { spend_cache = insert tenant c e.spend_cache }

    -- The counter after the ledger answered: its total, or the local sum when it failed.
    unfoldable pub settle : String → ℕ → Enforcer → Counter → L × Option F → Enforcer
    settle tenant now e bumped (ledger, none) =
        store_counter tenant bumped (record e { spend_backend = some ledger })
    settle tenant now e bumped (ledger, some total) =
        store_counter tenant (record bumped { usd = total; expiry = now + spend_cache_ttl })
          (record e { spend_backend = some ledger })

    unfoldable pub add_to_spend : String → F → ℕ → Enforcer → Enforcer
    unfolding counter_for_month settle
    add_to_spend tenant usd now e =
        let month = month_of now in
        let c = counter_for_month tenant month e in
        let bumped : Counter = record c { usd = add c.usd usd } in
        if str_eq tenant "" || le usd f_zero then e else elim e.spend_backend [
          | none ↦ store_counter tenant bumped e
          | some ledger ↦ settle tenant now e bumped (add_spend ledger tenant month usd)
        ]

    -- A stale counter after the ledger was read; on an error the last known total is served.
    unfoldable pub refreshed : String → ℕ → Enforcer → Counter → Option F → Enforcer × F
    refreshed tenant now e c none = (store_counter tenant c e, c.usd)
    refreshed tenant now e c (some total) =
        (store_counter tenant (record c { usd = total; expiry = now + spend_cache_ttl }) e, total)

    -- The total, and the state with the counter that was looked up or refreshed.
    unfoldable pub current_spend : String → ℕ → Enforcer → Enforcer × F
    unfolding counter_for_month refreshed
    current_spend tenant now e =
        let month = month_of now in
        let c = counter_for_month tenant month e in
        elim e.spend_backend [
          | none ↦ (store_counter tenant c e, c.usd)
          | some ledger ↦
              if ltb now c.expiry
              then (store_counter tenant c e, c.usd)
              else refreshed tenant now e c (get_spend ledger tenant month)
        ]

    unfoldable pub check_spend : String → ℕ → Enforcer → Enforcer × Bool
    unfolding effective
    check_spend tenant now e =
        let cap = (effective tenant e).monthly_spend_usd in
        let r = current_spend tenant now e in
        if str_eq tenant "" || le cap f_zero then (e, true) else (r.0, lt r.1 cap)

    -- `Usage`, whose month is that of the clock.
    unfoldable pub usage : String → ℕ → Enforcer → Enforcer × String × F
    usage tenant now e = let r = current_spend tenant now e in (r.0, month_of now, r.1)
