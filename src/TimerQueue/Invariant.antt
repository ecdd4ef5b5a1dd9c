-- ===== src/TimerQueue/Invariant.antt =====
-- The two containers of a timer queue, and how its operations keep them in step.
mod TimerSet
unfoldable pub use TimerSet.*
use svarog_io.Common.{
  ℕ, suc, ◌+◌, ◌%◌, ◌^◌, ◌≤◌, ◌<◌, ◌≡◌, ◌≢◌, refl, ◌⊎◌, inl, inr, Bool, true, false, ◌&&◌, List, [],
  ◌∷◌, map, Option, none, some, arith, ltb, leb, ◌==◌, if◌then◌else◌, length, Option-cases,
  Bool-cases,
}
use svarog_io.Common.Maps.{find, assign, erase_key, find-assign, find-erase_key}
use svarog_io.TimerQueue.{
  TimerEntry, TimerQueue, id_modulus, greater, emplace, erase_node, add_timer, cancel_timer,
  pop_expired, clear, new,
}

module _ {ℓ} {H : Type ℓ} where
  -- What holds between two calls: the set is sorted, no id is there twice, ids run from 1 to below
  -- `next_id`, and the map has exactly the ids of the set, each with its own node.
  pub record Inv (q : TimerQueue H) : Type ℓ where
    pub falling : Falling q.timers
    pub distinct : Distinct q.timers
    pub started : (0 < q.next_id) × (q.next_id < id_modulus)
    pub fresh : (i : ℕ) → (i ≡ 0) ⊎ (q.next_id ≤ i) → deadline_of i q.timers ≡ none
    pub mapped : (i : ℕ) → find i q.id_to_iterator ≡ deadline_of i q.timers

  pub new-Inv : Inv new
  unfolding find deadline_of
  new-Inv = record {
    falling = tt;
    distinct = tt;
    started = omega arith;
    fresh = λ i h. refl;
    mapped = λ i. refl;
  }

  pub add_timer-Inv :
      (deadline : ℕ) (h : H) (q : TimerQueue H)
      → q.next_id + 1 < id_modulus
      → Inv q
      → Inv (add_timer deadline h q).0
  unfolding add_timer
  add_timer-Inv deadline h q room v = record {
    falling = emplace-Falling e q.timers v.falling;
    distinct = emplace-Distinct e q.timers new_id v.distinct;
    started = ground (arith, v.started);
    fresh = λ i h. ground (arith, v.fresh i, deadline_of-emplace e i q.timers new_id);
    mapped = λ i. ground (
      arith,
      v.mapped i,
      deadline_of-emplace e i q.timers new_id,
      find-assign q.next_id i deadline q.id_to_iterator,
    );
  }
    where
      e : TimerEntry H
      e = record { id = q.next_id; deadline = deadline; handler = h }

      new_id : deadline_of q.next_id q.timers ≡ none
      new_id = v.fresh q.next_id (inr (omega arith))

  pub cancel_timer-Inv : (id : ℕ) (q : TimerQueue H) → Inv q → Inv (cancel_timer id q).0
  unfolding cancel_timer
  cancel_timer-Inv id q v = elim (Option-cases (find id q.id_to_iterator)) [
    | inl absent ↦ rw (absent, cancel_timer) v
    | inr (d, there) ↦
        rw (there, cancel_timer)
          (record {
            falling = erase_node-Falling d q.timers v.falling;
            distinct = erase_node-Distinct d q.timers v.distinct;
            started = v.started;
            fresh = λ i h. ground (arith, v.fresh i, deadline_of-erase_none i d q.timers);
            mapped = λ i. ground (
              arith,
              v.mapped i,
              v.mapped id,
              find-erase_key id i q.id_to_iterator,
              deadline_of-erase_node id i d q.timers v.falling v.distinct,
            );
          })
  ]

  pop_front-Inv :
      (n : ℕ) (x : TimerEntry H) (xs : List (TimerEntry H)) (m : List (ℕ × ℕ))
      → Inv (record { next_id = n; timers = x ∷ xs; id_to_iterator = m })
      → Inv (record { next_id = n; timers = xs; id_to_iterator = erase_key x.id m })
  unfolding deadline_of
  pop_front-Inv n x xs m v = record {
    falling = Falling-tail x.deadline xs v.falling;
    distinct = v.distinct.1;
    started = v.started;
    fresh = λ i h. ground (arith, v.fresh i h, v.distinct);
    mapped = λ i. ground (arith, v.mapped i, v.distinct, find-erase_key x.id i m);
  }

  pop_list-Inv :
      (now n : ℕ) (xs : List (TimerEntry H)) (m : List (ℕ × ℕ))
      → let q : TimerQueue H = record { next_id = n; timers = xs; id_to_iterator = m } in
        Inv q → Inv (pop_expired now q).0
  unfolding pop_expired
  pop_list-Inv now n [] m v = v
  pop_list-Inv now n (x ∷ xs) m v = elim (Bool-cases (ltb now x.deadline)) [
    | inl early ↦ rw early v
    | inr due ↦ rw due (pop_front-Inv n x xs m v)
  ]

  pub pop_expired-Inv : (now : ℕ) (q : TimerQueue H) → Inv q → Inv (pop_expired now q).0
  pop_expired-Inv now q v = pop_list-Inv now q.next_id q.timers q.id_to_iterator v

  pub clear-Inv : (q : TimerQueue H) → Inv q → Inv (clear q).0
  unfolding clear find deadline_of
  clear-Inv q v = record {
    falling = tt;
    distinct = tt;
    started = v.started;
    fresh = λ i h. refl;
    mapped = λ i. refl;
  }

-- A call on a timer queue, with the clock reading that it takes.
pub data Call {ℓ} (H : Type ℓ) : Type ℓ where
  adds : ℕ → H → Call H
  cancels pops : ℕ → Call H
  clears : Call H

module _ {ℓ} {H : Type ℓ} where
  unfoldable pub step : TimerQueue H → Call H → TimerQueue H
  unfolding add_timer cancel_timer pop_expired clear
  step q (adds deadline h) = (add_timer deadline h q).0
  step q (cancels id) = (cancel_timer id q).0
  step q (pops now) = (pop_expired now q).0
  step q clears = (clear q).0

  unfoldable pub run : TimerQueue H → List (Call H) → TimerQueue H
  unfolding step
  run q [] = q
  run q (c ∷ cs) = run (step q c) cs

  pub step-Inv :
      (q : TimerQueue H) (c : Call H) → q.next_id + 1 < id_modulus → Inv q → Inv (step q c)
  unfolding step
  step-Inv q (adds deadline h) room v = add_timer-Inv deadline h q room v
  step-Inv q (cancels id) room v = cancel_timer-Inv id q v
  step-Inv q (pops now) room v = pop_expired-Inv now q v
  step-Inv q clears room v = clear-Inv q v

  pub step-next_id :
      (q : TimerQueue H) (c : Call H)
      → q.next_id + 1 < id_modulus
      → (step q c).next_id ≤ q.next_id + 1
  unfolding step add_timer cancel_timer pop_expired clear
  step-next_id q (adds deadline h) room = omega arith
  step-next_id q (cancels id) room = ground arith
  step-next_id q (pops now) room = ground arith
  step-next_id q clears room = omega arith

  run-Inv :
      (q : TimerQueue H) (cs : List (Call H))
      → q.next_id + length cs < id_modulus
      → Inv q
      → Inv (run q cs)
  unfolding run
  run-Inv q [] room v = v
  run-Inv q (c ∷ cs) room v =
      run-Inv (step q c) cs (omega (arith, step-next_id q c (omega arith)))
        (step-Inv q c (omega arith) v)

  -- Over any history of fewer than 2^64 - 1 calls on a new queue (by the public operations, at any
  -- clock readings), the set stays sorted with distinct deadlines, no id is pending twice or was
  -- not given out yet, and the id map finds exactly the pending timers, each by its own deadline.
  pub run-new-Inv : (cs : List (Call H)) → 1 + length cs < id_modulus → Inv (run new cs)
  run-new-Inv cs room = run-Inv new cs room new-Inv
