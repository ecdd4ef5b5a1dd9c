-- ===== src/TimerQueue/Lifecycle.antt =====
-- What becomes of one timer: from `add_timer` to its cancellation, or to its loss.
use svarog_io.Common.{
  ℕ, ◌+◌, ◌<◌, ◌≡◌, ◌≢◌, inl, inr, Bool, true, false, List, [], ◌∷◌, Option, none, some, arith,
  ◌==◌, if◌then◌else◌, Option-cases, All,
}
use svarog_io.Common.Maps.{find, find-assign, erase_key-assign}
use svarog_io.TimerQueue.{
  TimerEntry, TimerQueue, id_modulus, emplace, erase_node, add_timer, cancel_timer,
}
use svarog_io.TimerQueue.Invariant.{
  Inv, Falling, Falling-tail, deadline_of, deadline_of-lt, deadline_of-erase_node,
}
use svarog_io.TimerQueue.Ordering.{Pending}

abbrev pub is_some {ℓ} : {A : Type ℓ} → Option A → Bool
is_some none = false
is_some (some a) = true

module _ {ℓ} {H : Type ℓ} where
  -- No pending timer has the deadline `d`.
  abbrev pub Unused : ℕ → List (TimerEntry H) → Type 0
  Unused d = All (λ x. x.deadline ≢ d)

  emplace-Unused :
      (e : TimerEntry H) (xs : List (TimerEntry H))
      → Unused e.deadline xs
      → ((emplace e xs).1 ≡ true) × (erase_node e.deadline (emplace e xs).0 ≡ xs)
  unfolding emplace erase_node
  emplace-Unused e [] u = ground arith
  emplace-Unused e (x ∷ xs) u = ground (arith, emplace-Unused e xs)

  emplace_below :
      (e : TimerEntry H) (j : ℕ) (xs : List (TimerEntry H))
      → Falling xs
      → deadline_of j xs ≡ some e.deadline
      → emplace e xs ≡ (xs, false)
  unfolding emplace deadline_of
  emplace_below e j [] f h = cc
  emplace_below e j (x ∷ xs) f h = ground (
    arith,
    deadline_of-lt j x.deadline e.deadline xs f,
    emplace_below e j xs (Falling-tail x.deadline xs f),
  )

  -- At a deadline that no pending timer has, `cancel_timer` undoes `add_timer`: it succeeds, and the
  -- queue is as before but for the id that was used up.
  pub add-cancel :
      (d : ℕ) (h : H) (q : TimerQueue H)
      → Inv q
      → q.next_id + 1 < id_modulus
      → Unused d q.timers
      → cancel_timer (add_timer d h q).1 (add_timer d h q).0
        ≡ (record q { next_id = q.next_id + 1 }, true)
  unfolding add_timer cancel_timer
  add-cancel d h q v room u = ground (
    arith,
    emplace-Unused (record { id = q.next_id; deadline = d; handler = h }) q.timers u,
    v.mapped q.next_id,
    v.fresh q.next_id,
    find-assign q.next_id q.next_id d q.id_to_iterator,
    erase_key-assign q.next_id d q.id_to_iterator,
  )

  -- At a deadline that a pending timer has, `add_timer` throws the new handler away: the pending
  -- timers are as before, and the id that it returns cancels nothing.
  pub add_timer_drops :
      (d : ℕ) (h : H) (q : TimerQueue H) (j : ℕ)
      → Inv q
      → Pending q j d
      → ((add_timer d h q).0.timers ≡ q.timers)
        × (cancel_timer (add_timer d h q).1 (add_timer d h q).0 ≡ ((add_timer d h q).0, false))
  unfolding add_timer cancel_timer
  add_timer_drops d h q j v taken = ground (
    arith,
    emplace_below (record { id = q.next_id; deadline = d; handler = h }) j q.timers v.falling,
    v.mapped q.next_id,
    v.fresh q.next_id,
  )

  -- `cancel_timer` succeeds exactly for a pending id; afterwards that id is not pending, and every
  -- other timer is as before.
  pub cancel_timer_exact :
      (id : ℕ) (q : TimerQueue H)
      → Inv q
      → ((cancel_timer id q).1 ≡ is_some (deadline_of id q.timers))
        × ((j : ℕ)
            → deadline_of j (cancel_timer id q).0.timers
              ≡ (if id == j then none else deadline_of j q.timers))
  unfolding cancel_timer
  cancel_timer_exact id q v = elim (Option-cases (find id q.id_to_iterator)) [
    | inl absent ↦ ground (arith, v.mapped id)
    | inr (d, there) ↦ (
      ground (arith, v.mapped id),
      λ j. ground (arith, v.mapped id, deadline_of-erase_node id j d q.timers v.falling v.distinct),
    )
  ]
