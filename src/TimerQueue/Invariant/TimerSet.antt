-- ===== src/TimerQueue/Invariant/TimerSet.antt =====
-- The ordered set of a timer queue (`timer_set`): sorted, one entry for each id and deadline.
use svarog_io.Common.{
  ℕ, ◌≤◌, ◌<◌, ◌≡◌, refl, ◌&&◌, List, [], ◌∷◌, Option, none, some, arith, ◌==◌, if◌then◌else◌,
}
use svarog_io.TimerQueue.{TimerEntry, emplace, erase_node}

module _ {ℓ} {H : Type ℓ} where
  -- The set in iteration order: every deadline below `d`, and falling.
  abbrev pub Below : ℕ → List (TimerEntry H) → Type 0
  Below d [] = Unit {0}
  Below d (x ∷ xs) = (x.deadline < d) × Below x.deadline xs

  abbrev pub Falling : List (TimerEntry H) → Type 0
  Falling [] = Unit {0}
  Falling (x ∷ xs) = Below x.deadline xs

  -- The deadline of the entry with a given id.
  unfoldable pub deadline_of : ℕ → List (TimerEntry H) → Option ℕ
  deadline_of i [] = none
  deadline_of i (x ∷ xs) = if x.id == i then some x.deadline else deadline_of i xs

  -- No id twice.
  abbrev pub Distinct : List (TimerEntry H) → Type 0
  Distinct [] = Unit {0}
  Distinct (x ∷ xs) = (deadline_of x.id xs ≡ none) × Distinct xs

  Below-weaken : {d e : ℕ} (xs : List (TimerEntry H)) → d ≤ e → Below d xs → Below e xs
  Below-weaken [] h b = tt
  Below-weaken (x ∷ xs) h b = (omega arith, b.1)

  pub Falling-tail : (b : ℕ) (xs : List (TimerEntry H)) → Below b xs → Falling xs
  Falling-tail b [] f = tt
  Falling-tail b (x ∷ xs) f = f.1

  emplace-Below :
      (e : TimerEntry H) (d : ℕ) (xs : List (TimerEntry H))
      → e.deadline < d
      → Below d xs
      → Below d (emplace e xs).0
  unfolding emplace
  emplace-Below e d [] h b = (h, tt)
  emplace-Below e d (x ∷ xs) h b = ground (arith, emplace-Below e x.deadline xs)

  pub emplace-Falling :
      (e : TimerEntry H) (xs : List (TimerEntry H)) → Falling xs → Falling (emplace e xs).0
  unfolding emplace
  emplace-Falling e [] f = tt
  emplace-Falling e (x ∷ xs) f = ground (arith, emplace-Below e x.deadline xs)

  erase_node-Below : (k d : ℕ) (xs : List (TimerEntry H)) → Below d xs → Below d (erase_node k xs)
  unfolding erase_node
  erase_node-Below k d [] b = tt
  erase_node-Below k d (x ∷ xs) b =
      ground (arith, erase_node-Below k x.deadline xs, Below-weaken {d = x.deadline} {e = d} xs)

  pub erase_node-Falling :
      (k : ℕ) (xs : List (TimerEntry H)) → Falling xs → Falling (erase_node k xs)
  unfolding erase_node
  erase_node-Falling k [] f = tt
  erase_node-Falling k (x ∷ []) f = ground arith
  erase_node-Falling k (x ∷ y ∷ xs) f = ground (arith, erase_node-Below k x.deadline (y ∷ xs) f)

  pub deadline_of-lt :
      (i b d : ℕ) (xs : List (TimerEntry H)) → Below b xs → deadline_of i xs ≡ some d → d < b
  unfolding deadline_of
  deadline_of-lt i b d [] h e = cc
  deadline_of-lt i b d (x ∷ xs) h e = ground (arith, deadline_of-lt i x.deadline d xs h.1)

  pub deadline_of-emplace :
      (e : TimerEntry H) (i : ℕ) (xs : List (TimerEntry H))
      → deadline_of e.id xs ≡ none
      → deadline_of i (emplace e xs).0
        ≡ (if (emplace e xs).1 && (e.id == i) then some e.deadline else deadline_of i xs)
  unfolding emplace deadline_of
  deadline_of-emplace e i [] h = ground arith
  deadline_of-emplace e i (x ∷ xs) h = ground (arith, deadline_of-emplace e i xs)

  pub emplace-Distinct :
      (e : TimerEntry H) (xs : List (TimerEntry H))
      → deadline_of e.id xs ≡ none
      → Distinct xs
      → Distinct (emplace e xs).0
  unfolding emplace deadline_of
  emplace-Distinct e [] h f = (refl, tt)
  emplace-Distinct e (x ∷ xs) h f =
      ground (arith, emplace-Distinct e xs, deadline_of-emplace e x.id xs)

  pub deadline_of-erase_none :
      (i k : ℕ) (xs : List (TimerEntry H))
      → deadline_of i xs ≡ none
      → deadline_of i (erase_node k xs) ≡ none
  unfolding erase_node deadline_of
  deadline_of-erase_none i k [] h = refl
  deadline_of-erase_none i k (x ∷ xs) h = ground (arith, deadline_of-erase_none i k xs)

  pub erase_node-Distinct :
      (k : ℕ) (xs : List (TimerEntry H)) → Distinct xs → Distinct (erase_node k xs)
  unfolding erase_node
  erase_node-Distinct k [] f = tt
  erase_node-Distinct k (x ∷ xs) f =
      ground (arith, erase_node-Distinct k xs, deadline_of-erase_none x.id k xs)

  -- Erasing the node of id `i` forgets that id and no other.
  pub deadline_of-erase_node :
      (i j d : ℕ) (xs : List (TimerEntry H))
      → Falling xs
      → Distinct xs
      → deadline_of i xs ≡ some d
      → deadline_of j (erase_node d xs) ≡ (if i == j then none else deadline_of j xs)
  unfolding erase_node deadline_of
  deadline_of-erase_node i j d [] f u h = cc
  deadline_of-erase_node i j d (x ∷ xs) f u h = ground (
    arith,
    deadline_of-lt i x.deadline d xs f,
    deadline_of-erase_node i j d xs (Falling-tail x.deadline xs f) u.1,
  )
