-- ===== src/Quota/Examples.antt =====
-- The quota enforcer over whole numbers, with a ledger that adds up.
use Prim.Native.Nat.{min, max}
use mock_agents.Prelude.{
  ℕ, ◌+◌, ◌-◌, ◌*◌, ◌/◌, false, String, some, [], ◌∷◌, ◌≡◌, refl, arith, ltb, leb, ℤ, if◌then◌else◌,
  lookup,
}
use mock_agents.Float.{Float64}
use mock_agents.Quota.{
  SpendBackend, second, new_enforcer, allow_request, check_spend, effective, refill, capacity_for,
  add_to_spend, current_spend,
}
use mock_agents.Quota.RateLimit.{
  FloatOrder, FloatWhole, State, Bounded, requests, allow_request-Bounded, requests-grants,
}
use mock_agents.Quota.Spend.{charge_all, with_ledger, check_spend-charge_all, add_to_spend_cached}

abbrev whole : Float64
whole = record {
  F = ℕ;
  f_zero = 0;
  f_one = 1;
  add = λ a b. a + b;
  sub = λ a b. a - b;
  mul = λ a b. a * b;
  div = λ a b. a / b;
  lt = ltb;
  le = leb;
  math_min = min;
  math_max = max;
  of_int = λ n. n;
  seconds = λ n. n / second;
  to_duration = λ n. n;
}

whole_order : FloatOrder whole
whole_order = record {
  le_refl = λ a. ground arith;
  le_trans = λ a b c p q. ground arith;
  min_le = λ a b. ground arith;
  sub_le = λ a. ground arith;
}

whole_units : FloatWhole whole
whole_units = record { whole = λ n. n; le_one = λ a. ground arith; sub_one = λ a small. refl }

-- A ledger with one total.
abbrev ledger : SpendBackend ℕ
ledger = record {
  L = ℕ;
  add_spend = λ l t month usd. (l + usd, some (l + usd));
  get_spend = λ l t month. some l;
}

abbrev month_of : ℕ → String
month_of now = if ltb now 1_000_000_000_000 then "2026-01" else "2026-02"

abbrev enforcer : State whole ledger month_of
unfolding new_enforcer
enforcer =
    new_enforcer whole ledger month_of
      (record { rate_per_sec = 2; rate_burst = ℤ.pos 3; monthly_spend_usd = 10 })

enforcer-Bounded : Bounded whole ledger month_of enforcer
unfolding enforcer lookup
enforcer-Bounded t b found = cc

allow_request-Bounded_example :
    Bounded whole ledger month_of (allow_request whole ledger month_of "acme" 5 enforcer).0
allow_request-Bounded_example =
    allow_request-Bounded whole ledger month_of whole_order "acme" 5 enforcer enforcer-Bounded

requests-grants_example : (requests whole ledger month_of 5 "acme" 7 enforcer).1 ≡ 3
unfolding enforcer lookup effective refill capacity_for whole_units
requests-grants_example =
    requests-grants whole ledger month_of whole_units 5 "acme" 7 enforcer refl refl (omega arith)

check_spend-charge_all_example :
    (check_spend whole ledger month_of "acme" 9
      (charge_all whole ledger month_of "acme" ((4, 1) ∷ (6, 2) ∷ []) enforcer)).1
    ≡ false
unfolding enforcer effective current_spend lookup
check_spend-charge_all_example =
    (check_spend-charge_all whole ledger month_of "acme" ((4, 1) ∷ (6, 2) ∷ []) 9 enforcer refl refl
      ((refl, refl), ((refl, refl), tt)) refl).0

abbrev shared : State whole ledger month_of
unfolding enforcer
shared = record enforcer { spend_backend = some 5 }

add_to_spend_cached_example :
    let after =
      with_ledger whole ledger month_of 50
        (add_to_spend whole ledger month_of "acme" 4 80 shared) in
    ((current_spend whole ledger month_of "acme" 90 after).1 ≡ 9)
    × ((current_spend whole ledger month_of "acme" 5_000_000_080 after).1 ≡ 50)
unfolding shared lookup
add_to_spend_cached_example =
    add_to_spend_cached whole ledger month_of "acme" 4 80 90 5_000_000_080 shared 5 9 50 9 50 refl
      refl refl refl (omega arith) refl (omega arith) refl
