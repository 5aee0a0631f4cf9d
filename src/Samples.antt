-- ===== src/Samples.antt =====
-- Stand-ins that the examples share: whole numbers for floats, a generator that always draws the
-- same, and patterns that are texts.
use Prim.Native.Nat.{min, max}
use text.Mathlib.Text.{find?}
use mock_agents.Prelude.{
  ℕ, ◌+◌, ◌-◌, ◌*◌, ◌/◌, ◌<◌, String, none, some, [], ◌∷◌, arith, ltb, leb, true, false,
  if◌then◌else◌, str_eq,
}
use mock_agents.Float.{Float64}
use mock_agents.Chaos.{RandSource}
use mock_agents.Scenarios.{Text}

abbrev pub whole : Float64
whole = record {
  F = ℕ;
  f_zero = 0;
  f_one = 1;
  add = λ a b. a + b;
  sub = λ a b. a - b;
  mul = λ a b. a * b;
  div = λ a b. a / b;
  lt = ltb;
  le = leb;
  math_min = min;
  math_max = max;
  of_int = λ n. n;
  seconds = λ n. n;
  to_duration = λ n. n;
}

pub last_lt : (n : ℕ) → 0 < n → n - 1 < n
last_lt n h = omega arith

abbrev pub last : RandSource ℕ
last = record {
  R = Unit {0};
  float64 = λ r. (r, 0);
  norm_float64 = λ r. (r, 3);
  intn = λ n r. (r, n - 1);
  intn_lt = λ n r h. last_lt n h;
}

-- A pattern is a text that the message must be; "[" does not compile.
abbrev pub plain : Text
plain = record {
  Regexp = String;
  to_lower = λ s. s;
  contains = λ s sub. elim (find? s sub) [ none ↦ false | some _ ↦ true ];
  compile = λ pattern. if str_eq pattern "[" then none else some pattern;
  find_submatch = λ re s. if str_eq re s then some (s ∷ s ∷ []) else none;
  subexp_names = λ re. "" ∷ "whole" ∷ [];
}
