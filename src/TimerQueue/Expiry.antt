-- ===== src/TimerQueue/Expiry.antt =====
-- The loop of `process_expired`: that it ends, what it counts, and which handler it loses.
use svarog_io.Common.{
  ℕ, zero, suc, ◌+◌, ◌≤◌, ◌<◌, ◌≡◌, refl, ◌⊎◌, inl, inr, true, false, List, [], ◌∷◌, none, some,
  arith, ltb, Bool-cases, length, ap,
}
use svarog_io.TimerQueue.{TimerEntry, TimerQueue, pop_expired, has_expired, process_expired, size}

module _ {ℓ} {H : Type ℓ} where
  -- `pop_expired` takes the first timer of the set, which is due, or does nothing.
  pop_list :
      (now n : ℕ) (xs : List (TimerEntry H)) (m : List (ℕ × ℕ))
      → let q : TimerQueue H = record { next_id = n; timers = xs; id_to_iterator = m } in
        ((has_expired now q ≡ false) × (pop_expired now q ≡ (q, none)))
        ⊎ ((x : TimerEntry H) × (has_expired now q ≡ true)
            × ((pop_expired now q).1 ≡ some x.handler)
            × (xs ≡ x ∷ (pop_expired now q).0.timers)
            × (x.deadline ≤ now))
  unfolding has_expired pop_expired
  pop_list now n [] m = inl (refl, refl)
  pop_list now n (x ∷ xs) m = elim (Bool-cases (ltb now x.deadline)) [
    | inl early ↦ inl (ground arith, ground arith)
    | inr due ↦ inr (x, ground arith, ground arith, ground arith, ground arith)
  ]

  -- `pop_expired` agrees with `has_expired` at the same time: either no timer is taken and the queue
  -- is left as it was, or the first timer is due, its handler comes out, and the others stay.
  pub pop_expired_first :
      (now : ℕ) (q : TimerQueue H)
      → ((has_expired now q ≡ false) × (pop_expired now q ≡ (q, none)))
        ⊎ ((x : TimerEntry H) × (has_expired now q ≡ true)
            × ((pop_expired now q).1 ≡ some x.handler)
            × (q.timers ≡ x ∷ (pop_expired now q).0.timers)
            × (x.deadline ≤ now))
  pop_expired_first now q = pop_list now q.next_id q.timers q.id_to_iterator

  -- The queue is shorter by one when a handler comes out.
  pub pop_expired_cases :
      (now : ℕ) (q : TimerQueue H)
      → ((has_expired now q ≡ false) × (pop_expired now q ≡ (q, none)))
        ⊎ ((h : H) × (has_expired now q ≡ true)
            × ((pop_expired now q).1 ≡ some h)
            × (size (pop_expired now q).0 + 1 ≡ size q))
  unfolding size
  pop_expired_cases now q = elim (pop_expired_first now q) [
    | inl idle ↦ inl idle
    | inr (x, due, out, rest, _) ↦ inr (x.handler, due, out, omega (arith, ap length rest))
  ]

  expired_later_list :
      (a b n : ℕ) (xs : List (TimerEntry H)) (m : List (ℕ × ℕ))
      → let q : TimerQueue H = record { next_id = n; timers = xs; id_to_iterator = m } in
        a ≤ b → has_expired a q ≡ true → has_expired b q ≡ true
  unfolding has_expired
  expired_later_list a b n [] m le e = e
  expired_later_list a b n (x ∷ xs) m le e = ground arith

  -- What has expired stays so.
  pub has_expired_mono :
      (a b : ℕ) (q : TimerQueue H) → a ≤ b → has_expired a q ≡ true → has_expired b q ≡ true
  has_expired_mono a b q le e = expired_later_list a b q.next_id q.timers q.id_to_iterator le e

  -- `process_expired` returns: if no handler adds timers when it is called, fuel above the number of
  -- pending timers is enough at any clock readings, and the calls that it counts and the timers left
  -- are at most the timers that were pending.
  pub process_expired_returns :
      (fuel : ℕ) (clock : ℕ → ℕ) (fire : H → TimerQueue H → TimerQueue H) (until : ℕ)
      (q : TimerQueue H)
      → ((h : H) (r : TimerQueue H) → size (fire h r) ≤ size r)
      → size q < fuel
      → (q' : TimerQueue H) × (count : ℕ) × (process_expired fuel clock fire until q
          ≡ some (q', count))
        × (count + size q' ≤ size q)
  unfolding process_expired
  process_expired_returns zero clock fire until q keeps enough = absurd (omega arith)
  process_expired_returns (suc fuel) clock fire until q keeps enough =
      elim (pop_expired_cases (clock 0) q) [
        | inl (_, e) ↦ (q, 0, ground arith, omega arith)
        | inr (h, due, out, less) ↦ elim (Bool-cases (ltb until (clock 1))) [
          | inl late ↦ ((pop_expired (clock 0) q).0, 0, ground arith, omega arith)
          | inr in_time ↦
              let (q', count, done, bound) =
                process_expired_returns fuel (λ k. clock (k + 2)) fire until
                  (fire h (pop_expired (clock 0) q).0) keeps
                  (omega (arith, keeps h (pop_expired (clock 0) q).0)) in
              (q', suc count, ground arith, omega (arith, keeps h (pop_expired (clock 0) q).0))
        ]
      ]

  -- `process_expired` loses a handler: if a timer is due but the clock has passed the limit `t_now`
  -- once it is popped, the call returns 0 with one timer fewer, whatever the handlers would do.
  pub process_expired_loses :
      (fuel : ℕ) (clock : ℕ → ℕ) (fire : H → TimerQueue H → TimerQueue H) (until : ℕ)
      (q : TimerQueue H)
      → has_expired (clock 0) q ≡ true
      → until < clock 1
      → (q' : TimerQueue H) × (process_expired (suc fuel) clock fire until q ≡ some (q', 0))
        × (size q' + 1 ≡ size q)
  unfolding process_expired
  process_expired_loses fuel clock fire until q due late = elim (pop_expired_cases (clock 0) q) [
    | inl (idle, _) ↦ cc
    | inr (h, _, out, less) ↦ ((pop_expired (clock 0) q).0, ground arith, less)
  ]
