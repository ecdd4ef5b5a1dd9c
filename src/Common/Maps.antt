-- ===== src/Common/Maps.antt =====
-- `std::unordered_map` with number keys, as an association list: `find`, `operator[] =`, `erase`.
use Prim.Native.Nat.{ℕ}
use mathlib.Core.Path.{◌≡◌, refl}
use mathlib.Core.Option.{Option, none, some}
use mathlib.Core.List.{List, [], ◌∷◌}
use native.Mathlib.Omega.{arith}
use svarog_io.Common.Tests.{◌==◌, if◌then◌else◌}

module _ {ℓ} {V : Type ℓ} where
  unfoldable pub find : ℕ → List (ℕ × V) → Option V
  find k [] = none
  find k ((j, v) ∷ m) = if j == k then some v else find k m

  -- `m[k] = v`: an existing entry is overwritten in place.
  unfoldable pub assign : ℕ → V → List (ℕ × V) → List (ℕ × V)
  assign k v [] = (k, v) ∷ []
  assign k v ((j, w) ∷ m) = if j == k then (k, v) ∷ m else (j, w) ∷ assign k v m

  -- `m.erase(k)`
  unfoldable pub erase_key : ℕ → List (ℕ × V) → List (ℕ × V)
  erase_key k [] = []
  erase_key k ((j, w) ∷ m) = let rest = erase_key k m in if j == k then rest else (j, w) ∷ rest

  pub find-assign :
      (k j : ℕ) (v : V) (m : List (ℕ × V))
      → find j (assign k v m) ≡ (if k == j then some v else find j m)
  unfolding find assign
  find-assign k j v [] = refl
  find-assign k j v ((i, w) ∷ m) = ground (arith, find-assign k j v m)

  pub find-erase_key :
      (k j : ℕ) (m : List (ℕ × V)) → find j (erase_key k m) ≡ (if k == j then none else find j m)
  unfolding find erase_key
  find-erase_key k j [] = ground arith
  find-erase_key k j ((i, w) ∷ m) = ground (arith, find-erase_key k j m)

  pub erase_key-eq_of_none : (k : ℕ) (m : List (ℕ × V)) → find k m ≡ none → erase_key k m ≡ m
  unfolding find erase_key
  erase_key-eq_of_none k [] h = refl
  erase_key-eq_of_none k ((i, w) ∷ m) h = ground (arith, erase_key-eq_of_none k m)

  pub erase_key-assign :
      (k : ℕ) (v : V) (m : List (ℕ × V)) → find k m ≡ none → erase_key k (assign k v m) ≡ m
  unfolding find assign erase_key
  erase_key-assign k v [] h = ground arith
  erase_key-assign k v ((i, w) ∷ m) h = ground (arith, erase_key-assign k v m)
