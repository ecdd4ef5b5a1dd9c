-- ===== src/Common/Counting.antt =====
-- How many elements of a list pass a test.
use Prim.Native.Nat.{ℕ, ◌+◌}
use mathlib.Core.Path.{◌≡◌}
use mathlib.Core.Bool.{Bool}
use mathlib.Core.List.{List, [], ◌∷◌, ◌++◌}
use native.Mathlib.Omega.{arith}
use svarog_io.Common.Tests.{if◌then◌else◌}

module _ {ℓ} {A : Type ℓ} (p : A → Bool) where
  abbrev pub weigh : A → ℕ
  weigh a = if p a then 1 else 0

  abbrev pub count : List A → ℕ
  count [] = 0
  count (a ∷ rest) = weigh a + count rest

  pub count-append : (xs ys : List A) → count (xs ++ ys) ≡ count xs + count ys
  count-append [] ys = omega arith
  count-append (x ∷ xs) ys = omega (arith, count-append xs ys)
