-- ===== src/Common/Family.antt =====
-- Families indexed by thread: one thread's state replaced, and a weight summed over the threads.
use Prim.Native.Nat.{ℕ, zero, suc, ◌+◌, ◌≤◌, ◌<◌}
use mathlib.Core.Path.{◌≡◌, refl}
use mathlib.Core.Logic.{◌≢◌}
use native.Mathlib.Omega.{arith}
use native.Mathlib.Decide.{dec_lt}
use svarog_io.Common.Tests.{◌==◌, if◌then◌else◌}

abbrev pub update {ℓ} : {A : Type ℓ} → (ℕ → A) → ℕ → A → ℕ → A
update family at_index a index = if at_index == index then a else family index

module _ {ℓ} {A : Type ℓ} (weight : A → ℕ) where
  unfoldable pub total : ℕ → (ℕ → A) → ℕ
  total zero state = 0
  total (suc threads) state = weight (state threads) + total threads state

  -- A positive sum has a thread that counts.
  pub total-pos :
      (threads : ℕ) (state : ℕ → A)
      → 0 < total threads state
      → (i : ℕ) × (i < threads) × (0 < weight (state i))
  unfolding total
  total-pos zero state h = absurd (omega arith)
  total-pos (suc threads) state h = elim (dec_lt 0 (weight (state threads))) [
    | yes last ↦ (threads, omega arith, last)
    | no rest ↦
        let (i, lt, counts) = total-pos threads state (omega arith) in (i, omega arith, counts)
  ]

  pub total-eq-zero :
      (threads : ℕ) (state : ℕ → A) → ((i : ℕ) → weight (state i) ≡ 0) → total threads state ≡ 0
  unfolding total
  total-eq-zero zero state h = refl
  total-eq-zero (suc threads) state h = omega (arith, total-eq-zero threads state h, h threads)

  pub le-total :
      (threads : ℕ) (state : ℕ → A) (i : ℕ) → i < threads → weight (state i) ≤ total threads state
  unfolding total
  le-total zero state i h = absurd (omega arith)
  le-total (suc threads) state i h = elim (dec_lt i threads) [
    | yes lower ↦ omega (arith, le-total threads state i lower)
    | no last ↦ ground arith
  ]

  -- Two different threads are both counted.
  pub add-le-total :
      (threads : ℕ) (state : ℕ → A) (i j : ℕ)
      → i < threads
      → j < threads
      → i ≢ j
      → weight (state i) + weight (state j) ≤ total threads state
  unfolding total
  add-le-total zero state i j hi hj d = absurd (omega arith)
  add-le-total (suc threads) state i j hi hj d =
      ground
        (arith, add-le-total threads state i j, le-total threads state i, le-total threads state j)

  pub total-update_above :
      (threads : ℕ) (state : ℕ → A) (i : ℕ) (a : A)
      → threads ≤ i
      → total threads (update state i a) ≡ total threads state
  unfolding total
  total-update_above zero state i a h = refl
  total-update_above (suc threads) state i a h =
      ground (arith, total-update_above threads state i a)

  pub total-update :
      (threads : ℕ) (state : ℕ → A) (i : ℕ) (a : A)
      → i < threads
      → total threads (update state i a) + weight (state i) ≡ total threads state + weight a
  unfolding total
  total-update zero state i a h = absurd (omega arith)
  total-update (suc threads) state i a h = elim (dec_lt i threads) [
    | yes lower ↦ ground (arith, total-update threads state i a lower)
    | no last ↦ ground (arith, total-update_above threads state i a)
  ]

module _ {ℓ} {A : Type ℓ} (v w : A → ℕ) where
  total-le :
      (threads : ℕ) (after before : ℕ → A)
      → ((j : ℕ) → v (after j) ≤ w (before j))
      → total v threads after ≤ total w threads before
  unfolding total
  total-le zero after before le = omega arith
  total-le (suc threads) after before le =
      omega (arith, total-le threads after before le, le threads)

  -- No weight grows, and one that counts falls.
  pub total-lt :
      (threads : ℕ) (after before : ℕ → A) (i : ℕ)
      → i < threads
      → ((j : ℕ) → v (after j) ≤ w (before j))
      → v (after i) < w (before i)
      → total v threads after < total w threads before
  unfolding total
  total-lt zero after before i lt le falls = absurd (omega arith)
  total-lt (suc threads) after before i lt le falls = elim (dec_lt i threads) [
    | yes inner ↦ omega (arith, total-lt threads after before i inner le falls, le threads)
    | no last ↦ ground (arith, total-le threads after before le, falls)
  ]
