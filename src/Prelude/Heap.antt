-- ===== src/Prelude/Heap.antt =====
-- A heap of objects, which pointers address by number.
use Prim.Native.Nat.{ℕ}
use mathlib.Core.Path.{◌≡◌}
use mock_agents.Prelude.Tests.{◌==◌, if◌then◌else◌, ==_refl}

module _ {ℓ} {A : Type ℓ} where
  -- `*p = a`
  abbrev pub update : (ℕ → A) → ℕ → A → ℕ → A
  update heap p a q = if p == q then a else heap q

  pub update_self : (heap : ℕ → A) (p : ℕ) (a : A) → update heap p a p ≡ a
  update_self heap p a = rw (==_refl p)
