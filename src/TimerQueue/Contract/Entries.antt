-- ===== src/TimerQueue/Contract/Entries.antt =====
-- The ordered set, read by deadlines.
use svarog_io.Common.{
  ℕ, ◌≤◌, ◌≡◌, refl, List, [], ◌∷◌, Option, none, some, arith, ◌==◌, if◌then◌else◌, ℕ_discrete,
  dec_lt,
}
use svarog_io.TimerQueue.{TimerEntry, emplace, erase_node}
use svarog_io.TimerQueue.Invariant.{
  Below, Falling, Falling-tail, Distinct, deadline_of, deadline_of-lt,
}
use svarog_io.TimerQueue.Contract.{or_else, without}

module _ {ℓ} {H : Type ℓ} where
  unfoldable pub entry_at : List (TimerEntry H) → ℕ → Option (ℕ × H)
  entry_at [] k = none
  entry_at (x ∷ xs) k = if x.deadline == k then some (x.id, x.handler) else entry_at xs k

  pub entry_at-Below :
      (b k : ℕ) (xs : List (TimerEntry H)) → Below b xs → b ≤ k → entry_at xs k ≡ none
  unfolding entry_at
  entry_at-Below b k [] f le = refl
  entry_at-Below b k (x ∷ xs) f le = ground (arith, entry_at-Below x.deadline k xs f.1)

  pub entry_at-emplace :
      (e : TimerEntry H) (k : ℕ) (xs : List (TimerEntry H))
      → Falling xs
      → entry_at (emplace e xs).0 k
        ≡ (if e.deadline == k then or_else (entry_at xs k) (e.id, e.handler) else entry_at xs k)
  unfolding entry_at emplace
  entry_at-emplace e k [] f = ground arith
  entry_at-emplace e k (x ∷ xs) f =
      let ih = entry_at-emplace e k xs (Falling-tail x.deadline xs f) in
      let below = entry_at-Below x.deadline k xs f in
      elim (ℕ_discrete e.deadline k) [
        | yes at ↦ elim (dec_lt x.deadline e.deadline) [
          | yes later ↦ ground (arith, at, later, below)
          | no early ↦ elim (dec_lt e.deadline x.deadline) [
            | yes sooner ↦ ground (arith, at, early, sooner, ih)
            | no same ↦ ground (arith, at, early, same, below)
          ]
        ]
        | no off ↦ elim (dec_lt x.deadline e.deadline) [
          | yes later ↦ ground (arith, off, later)
          | no early ↦ elim (dec_lt e.deadline x.deadline) [
            | yes sooner ↦ ground (arith, off, early, sooner, ih)
            | no same ↦ ground (arith, off, early, same)
          ]
        ]
      ]

  pub entry_at-erase_node :
      (d k : ℕ) (xs : List (TimerEntry H))
      → Falling xs
      → entry_at (erase_node d xs) k ≡ without d (entry_at xs) k
  unfolding entry_at erase_node
  entry_at-erase_node d k [] f = ground arith
  entry_at-erase_node d k (x ∷ xs) f =
      let ih = entry_at-erase_node d k xs (Falling-tail x.deadline xs f) in
      let below = entry_at-Below x.deadline k xs f in
      elim (ℕ_discrete x.deadline d) [
        | yes at ↦ elim (ℕ_discrete x.deadline k) [
          | yes here ↦ ground (arith, at, here, below)
          | no there ↦ ground (arith, at, there)
        ]
        | no off ↦ elim (ℕ_discrete x.deadline k) [
          | yes here ↦ ground (arith, off, here)
          | no there ↦ ground (arith, off, there, ih)
        ]
      ]

  pub entry-deadline_of :
      (i d : ℕ) (h : H) (xs : List (TimerEntry H))
      → Distinct xs
      → entry_at xs d ≡ some (i, h)
      → deadline_of i xs ≡ some d
  unfolding entry_at deadline_of
  entry-deadline_of i d h [] u e = cc
  entry-deadline_of i d h (x ∷ xs) u e = ground (arith, entry-deadline_of i d h xs u.1)

  pub deadline-entry_at :
      (i d : ℕ) (xs : List (TimerEntry H))
      → Falling xs
      → deadline_of i xs ≡ some d
      → (h : H) × (entry_at xs d ≡ some (i, h))
  unfolding entry_at deadline_of
  deadline-entry_at i d [] f e = cc
  deadline-entry_at i d (x ∷ xs) f e = elim (ℕ_discrete x.id i) [
    | yes same ↦ (x.handler, ground arith)
    | no other ↦
        let rest : deadline_of i xs ≡ some d = ground arith in
        let (h, there) = deadline-entry_at i d xs (Falling-tail x.deadline xs f) rest in
        (h, ground (arith, deadline_of-lt i x.deadline d xs f rest))
  ]
