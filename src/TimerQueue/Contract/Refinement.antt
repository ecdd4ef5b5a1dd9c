-- ===== src/TimerQueue/Contract/Refinement.antt =====
-- The timer queue keeps its promise.
use svarog_io.Common.{
  ℕ, ◌+◌, ◌<◌, ◌≡◌, refl, List, [], ◌∷◌, arith, Option-cases, Bool-cases, inl, inr, length, ltb,
}
use svarog_io.Common.Maps.{find}
use svarog_io.TimerQueue.{
  TimerEntry, TimerQueue, id_modulus, add_timer, cancel_timer, pop_expired, clear, new,
}
use svarog_io.TimerQueue.Invariant.{
  Inv, Falling, Call, adds, cancels, pops, clears, step, run, step-Inv, step-next_id, new-Inv,
}
use svarog_io.TimerQueue.Contract.{
  Spec, Reply, added, canceled, popped, cleared, IsLatest, Allows, add_allowed, cancel_allowed,
  cancel_refused, pop_allowed, pop_refused, clear_allowed, Behaves, at_rest, calling,
}
use svarog_io.TimerQueue.Contract.Entries.{
  entry_at, entry_at-Below, entry_at-emplace, entry_at-erase_node, entry-deadline_of,
  deadline-entry_at,
}

module _ {ℓ} {H : Type ℓ} where
  unfoldable pub view : TimerQueue H → Spec H
  unfolding entry_at
  view q = record { next_id = q.next_id; entry = entry_at q.timers }

  unfoldable pub reply : TimerQueue H → Call H → Reply H
  unfolding add_timer cancel_timer pop_expired
  reply q (adds d h) = added (add_timer d h q).1
  reply q (cancels id) = canceled (cancel_timer id q).1
  reply q (pops now) = popped (pop_expired now q).1
  reply q clears = cleared

  add_lem :
      (d : ℕ) (h : H) (q : TimerQueue H)
      → Inv q
      → Allows (view q) (view (add_timer d h q).0) (adds d h) (added q.next_id)
  unfolding view add_timer
  add_lem d h q v = add_allowed d h refl (λ k.
      entry_at-emplace (record { id = q.next_id; deadline = d; handler = h }) k q.timers v.falling)

  cancel_lem :
      (id : ℕ) (q : TimerQueue H)
      → Inv q
      → Allows (view q) (view (cancel_timer id q).0) (cancels id) (canceled (cancel_timer id q).1)
  unfolding view cancel_timer
  cancel_lem id q v = elim (Option-cases (find id q.id_to_iterator)) [
    | inl absent ↦
        rw (absent, cancel_timer)
          (cancel_refused id
            (λ d h e.
              ground (arith, absent, v.mapped id, entry-deadline_of id d h q.timers v.distinct e))
            refl)
    | inr (d, there) ↦
        let (h, e) =
          deadline-entry_at id d q.timers v.falling (ground (arith, v.mapped id, there)) in
        rw (there, cancel_timer)
          (cancel_allowed id d h e refl (λ k. entry_at-erase_node d k q.timers v.falling))
  ]

  first-IsLatest :
      (n : ℕ) (x : TimerEntry H) (xs : List (TimerEntry H))
      → Falling (x ∷ xs)
      → IsLatest (record { next_id = n; entry = entry_at (x ∷ xs) }) x.deadline
  unfolding entry_at
  first-IsLatest n x xs f = (ground arith, λ k lt. ground (arith, entry_at-Below x.deadline k xs f))

  IsLatest-first :
      (n d : ℕ) (x : TimerEntry H) (xs : List (TimerEntry H))
      → Falling (x ∷ xs)
      → IsLatest (record { next_id = n; entry = entry_at (x ∷ xs) }) d
      → d ≡ x.deadline
  unfolding entry_at
  IsLatest-first n d x xs f (some_there, none_later) =
      ground (arith, some_there, none_later x.deadline, entry_at-Below x.deadline d xs f)

  pop_list :
      (now n : ℕ) (xs : List (TimerEntry H)) (m : List (ℕ × ℕ))
      → Falling xs
      → let q : TimerQueue H = record { next_id = n; timers = xs; id_to_iterator = m } in
        Allows (view q) (view (pop_expired now q).0) (pops now) (popped (pop_expired now q).1)
  unfolding view pop_expired entry_at
  pop_list now n [] m f = pop_refused now (λ d latest. absurd (latest.0 refl)) refl
  pop_list now n (x ∷ xs) m f = elim (Bool-cases (ltb now x.deadline)) [
    | inl early ↦
        rw early (
          pop_refused now (λ d latest. ground (arith, early, IsLatest-first n d x xs f latest))
            refl)
    | inr due ↦ rw due (
        pop_allowed now x.id x.deadline x.handler (ground arith) (first-IsLatest n x xs f)
          (ground (arith, due)) refl (λ k. ground (arith, entry_at-Below x.deadline k xs f)))
  ]

  step-Allows :
      (q : TimerQueue H) (c : Call H) → Inv q → Allows (view q) (view (step q c)) c (reply q c)
  unfolding step reply
  step-Allows q (adds d h) v = unfold add_timer in add_lem d h q v
  step-Allows q (cancels id) v = cancel_lem id q v
  step-Allows q (pops now) v = pop_list now q.next_id q.timers q.id_to_iterator v.falling
  step-Allows q clears v = unfold clear view entry_at in clear_allowed refl (λ k. refl)

  -- The calls with what they return.
  unfoldable pub observed : TimerQueue H → List (Call H) → List (Call H × Reply H)
  unfolding reply step
  observed q [] = []
  observed q (c ∷ cs) = (c, reply q c) ∷ observed (step q c) cs

  run-Behaves :
      (q : TimerQueue H) (cs : List (Call H))
      → q.next_id + length cs < id_modulus
      → Inv q
      → Behaves (view q) (observed q cs) (view (run q cs))
  unfolding observed run
  run-Behaves q [] room v = at_rest
  run-Behaves q (c ∷ cs) room v = calling (step-Allows q c v) (
      run-Behaves (step q c) cs (omega (arith, step-next_id q c (omega arith)))
        (step-Inv q c (omega arith) v))

  -- The timer queue implements a map with one timer at most for each deadline: over any history of
  -- fewer than 2^64 - 1 calls on a new queue, every reply is one that the map allows. `add_timer`
  -- gives the next id, and enters the timer unless its deadline is taken; `cancel_timer` says true
  -- and removes the timer of the id exactly if there is one; `pop_expired` hands out and removes the
  -- timer of the latest deadline if that is due, and nothing otherwise; `clear` empties the map.
  pub run-new-Behaves :
      (cs : List (Call H))
      → 1 + length cs < id_modulus
      → Behaves (view new) (observed new cs) (view (run new cs))
  run-new-Behaves cs room = run-Behaves new cs room new-Inv
