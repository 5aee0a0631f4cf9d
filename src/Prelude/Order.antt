-- ===== src/Prelude/Order.antt =====
-- Go's `<` on strings.
use Prim.Native.Nat.{ℕ, ◌<◌, Ordering, compare as compare_ℕ}
use Prim.Native.Char.{code}
use Prim.Native.String.{String, [] as empty, ◌∷◌ as str_cons, compare, then as first_of}
use Prim.Native.String.compare
use mathlib.Core.Path.{◌≡◌, sym, ap, ◌∙◌}
use mathlib.Core.Logic.{◌⊎◌, inl, inr}
use mathlib.Core.Bool.{Bool, true, false}
use native.Mathlib.Omega.{arith}
use text.Mathlib.Text.{is_lt}
use text.Mathlib.TextPositions.{compare_refl}
use mock_agents.Prelude.Tests.{Bool-cases}

abbrev pub str_lt : String → String → Bool
str_lt s t = is_lt (compare s t)

pub str_lt_irrefl : (s : String) → str_lt s s ≡ false
str_lt_irrefl s = ap is_lt (compare_refl s)

-- What a composed comparison says when it says "less".
first_lt :
    (a b : ℕ) (x : Ordering)
    → is_lt (first_of (compare_ℕ a b) x) ≡ true
    → (a < b) ⊎ (a ≡ b) × (is_lt x ≡ true)
first_lt a b x h = ground arith

lt_first : (a b : ℕ) (x : Ordering) → a < b → is_lt (first_of (compare_ℕ a b) x) ≡ true
lt_first a b x h = ground arith

eq_first :
    (a b : ℕ) (x : Ordering) → a ≡ b → is_lt x ≡ true → is_lt (first_of (compare_ℕ a b) x) ≡ true
eq_first a b x h k = ground arith

pub str_lt_trans : (s t u : String) → str_lt s t ≡ true → str_lt t u ≡ true → str_lt s u ≡ true
str_lt_trans empty empty u h k = absurd (cc (sym (ap is_lt compare.nil-nil) ∙ h))
str_lt_trans empty (str_cons d t) empty h k =
    absurd (cc (sym (ap is_lt (compare.cons-nil d t)) ∙ k))
str_lt_trans empty (str_cons d t) (str_cons e u) h k = ap is_lt (compare.nil-cons e u)
str_lt_trans (str_cons c s) empty u h k = absurd (cc (sym (ap is_lt (compare.cons-nil c s)) ∙ h))
str_lt_trans (str_cons c s) (str_cons d t) empty h k =
    absurd (cc (sym (ap is_lt (compare.cons-nil d t)) ∙ k))
str_lt_trans (str_cons c s) (str_cons d t) (str_cons e u) h k =
    ap is_lt (compare.cons-cons c e s u)
    ∙ (elim (first_lt (code c) (code d) (compare s t)
        (sym (ap is_lt (compare.cons-cons c d s t)) ∙ h)) [
          | inl below ↦
              elim (first_lt (code d) (code e) (compare t u)
                (sym (ap is_lt (compare.cons-cons d e t u)) ∙ k)) [
                  | inl above ↦
                      lt_first (code c) (code e) (compare s u) (omega (arith, below, above))
                  | inr (same, later) ↦
                      lt_first (code c) (code e) (compare s u) (omega (arith, below, same))
                ]
          | inr (same, rest) ↦
              elim (first_lt (code d) (code e) (compare t u)
                (sym (ap is_lt (compare.cons-cons d e t u)) ∙ k)) [
                  | inl above ↦
                      lt_first (code c) (code e) (compare s u) (omega (arith, same, above))
                  | inr (alike, later) ↦
                      eq_first (code c) (code e) (compare s u) (same ∙ alike)
                        (str_lt_trans s t u rest later)
                ]
        ])

first_ge :
    (a b : ℕ) (x : Ordering)
    → is_lt (first_of (compare_ℕ a b) x) ≡ false
    → (b < a) ⊎ (a ≡ b) × (is_lt x ≡ false)
first_ge a b x h = ground arith

gt_first : (a b : ℕ) (x : Ordering) → b < a → is_lt (first_of (compare_ℕ a b) x) ≡ false
gt_first a b x h = ground arith

eq_first_ge :
    (a b : ℕ) (x : Ordering) → a ≡ b → is_lt x ≡ false → is_lt (first_of (compare_ℕ a b) x) ≡ false
eq_first_ge a b x h k = ground arith

-- "Not less" is transitive too.
pub str_ge_trans : (s t u : String) → str_lt s t ≡ false → str_lt t u ≡ false → str_lt s u ≡ false
str_ge_trans empty empty u h k = k
str_ge_trans empty (str_cons d t) u h k = absurd (cc (sym (ap is_lt (compare.nil-cons d t)) ∙ h))
str_ge_trans (str_cons c s) t empty h k = ap is_lt (compare.cons-nil c s)
str_ge_trans (str_cons c s) empty (str_cons e u) h k =
    absurd (cc (sym (ap is_lt (compare.nil-cons e u)) ∙ k))
str_ge_trans (str_cons c s) (str_cons d t) (str_cons e u) h k =
    ap is_lt (compare.cons-cons c e s u)
    ∙ (elim (first_ge (code c) (code d) (compare s t)
        (sym (ap is_lt (compare.cons-cons c d s t)) ∙ h)) [
          | inl below ↦
              elim (first_ge (code d) (code e) (compare t u)
                (sym (ap is_lt (compare.cons-cons d e t u)) ∙ k)) [
                  | inl above ↦
                      gt_first (code c) (code e) (compare s u) (omega (arith, below, above))
                  | inr (same, later) ↦
                      gt_first (code c) (code e) (compare s u) (omega (arith, below, same))
                ]
          | inr (same, rest) ↦
              elim (first_ge (code d) (code e) (compare t u)
                (sym (ap is_lt (compare.cons-cons d e t u)) ∙ k)) [
                  | inl above ↦
                      gt_first (code c) (code e) (compare s u) (omega (arith, same, above))
                  | inr (alike, later) ↦
                      eq_first_ge (code c) (code e) (compare s u) (same ∙ alike)
                        (str_ge_trans s t u rest later)
                ]
        ])

pub str_lt_asym : (s t : String) → str_lt s t ≡ true → str_lt t s ≡ false
str_lt_asym s t h = elim (Bool-cases (str_lt t s)) [
  | inl back ↦ absurd (cc (sym (str_lt_irrefl s) ∙ str_lt_trans s t s h back))
  | inr other ↦ other
]
