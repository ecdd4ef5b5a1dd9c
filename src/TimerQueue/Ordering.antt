-- ===== src/TimerQueue/Ordering.antt =====
-- Which timer `begin()` of the set is: `std::greater<>` puts the latest deadline first.
use svarog_io.Common.{
  ℕ, ◌≤◌, ◌<◌, ◌≡◌, ◌↔◌, refl, true, false, List, [], ◌∷◌, none, some, arith, leb,
}
use svarog_io.TimerQueue.{TimerEntry, TimerQueue, has_expired, get_next_expiry, pop_expired}
use svarog_io.TimerQueue.Invariant.{Inv, Falling, deadline_of, deadline_of-lt}

module _ {ℓ} {H : Type ℓ} where
  -- A pending timer: its id, and its deadline.
  abbrev pub Pending : TimerQueue H → ℕ → ℕ → Type 0
  Pending q i d = deadline_of i q.timers ≡ some d

  deadline_of-le_first :
      (i d : ℕ) (x : TimerEntry H) (xs : List (TimerEntry H))
      → Falling (x ∷ xs)
      → deadline_of i (x ∷ xs) ≡ some d
      → d ≤ x.deadline
  unfolding deadline_of
  deadline_of-le_first i d x xs f h = ground (arith, deadline_of-lt i x.deadline d xs f)

  first_pending :
      (x : TimerEntry H) (xs : List (TimerEntry H)) → deadline_of x.id (x ∷ xs) ≡ some x.deadline
  unfolding deadline_of
  first_pending x xs = ground arith

  -- What `begin()` gives for the three observers of the queue.
  abbrev Front : TimerQueue H → ℕ → ℕ → Type ℓ
  Front q j e =
      Pending q j e
      × (get_next_expiry q ≡ some e)
      × ((now : ℕ) → has_expired now q ≡ leb e now)
      × ((now : ℕ) → now < e → pop_expired now q ≡ (q, none))

  Front-list :
      (n i d : ℕ) (xs : List (TimerEntry H)) (m : List (ℕ × ℕ))
      → Falling xs
      → deadline_of i xs ≡ some d
      → (j : ℕ) × (e : ℕ) × (d ≤ e)
        × Front (record { next_id = n; timers = xs; id_to_iterator = m }) j e
  unfolding get_next_expiry has_expired pop_expired deadline_of
  Front-list n i d [] m f h = cc
  Front-list n i d (x ∷ xs) m f h = (
    x.id,
    x.deadline,
    deadline_of-le_first i d x xs f h,
    (first_pending x xs, refl, λ now. refl, λ now lt. ground arith),
  )

  front :
      (q : TimerQueue H) (i d : ℕ)
      → Inv q
      → Pending q i d
      → (j : ℕ) × (e : ℕ) × (d ≤ e) × Front q j e
  front q i d v h = Front-list q.next_id i d q.timers q.id_to_iterator v.falling h

  -- `get_next_expiry` is the latest pending deadline, not the earliest: it is the deadline of a
  -- pending timer, and no pending timer has a later one.
  pub next_expiry_is_latest :
      (q : TimerQueue H) (i d : ℕ)
      → Inv q
      → Pending q i d
      → (j : ℕ) × (e : ℕ) × Pending q j e × (get_next_expiry q ≡ some e) × (d ≤ e)
  next_expiry_is_latest q i d v h =
      let (j, e, le, (there, next, _, _)) = front q i d v h in (j, e, there, next, le)

  -- `has_expired` says true exactly when timers are pending and every one of them is due.
  pub has_expired_iff_all_due :
      (q : TimerQueue H) (now i d : ℕ)
      → Inv q
      → Pending q i d
      → (has_expired now q ≡ true) ↔ ((j e : ℕ) → Pending q j e → e ≤ now)
  has_expired_iff_all_due q now i d v h =
      let (j, e, _, (there, _, test, _)) = front q i d v h in
      (
        λ ok k c other.
            let (_, e', le, (_, next', test', _)) = front q k c v other in
            ground (arith, test' now),
        λ all. ground (arith, test now, all j e there),
      )

  -- A due timer is held up by any later one: if a timer is due at `now` and another one is pending
  -- with a deadline after `now`, then `has_expired` says false, `pop_expired` hands out nothing, and
  -- the due timer stays in the queue.
  pub due_timer_held_up :
      (q : TimerQueue H) (now i d j e : ℕ)
      → Inv q
      → Pending q i d
      → d ≤ now
      → Pending q j e
      → now < e
      → (has_expired now q ≡ false)
        × (pop_expired now q ≡ (q, none))
        × Pending (pop_expired now q).0 i d
  due_timer_held_up q now i d j e v due_one due late lt =
      let (_, _, le, (_, _, test, refuse)) = front q j e v late in
      let nothing = refuse now (omega (arith, le)) in
      (ground (arith, test now), nothing, rw nothing due_one)

  descends_list :
      (n now i d : ℕ) (xs : List (TimerEntry H)) (m : List (ℕ × ℕ)) {h : H}
      → Falling xs
      → (pop_expired now (record { next_id = n; timers = xs; id_to_iterator = m })).1 ≡ some h
      → Pending (pop_expired now (record { next_id = n; timers = xs; id_to_iterator = m })).0 i d
      → (e : ℕ) × (get_next_expiry {H = H} (record { next_id = n; timers = xs; id_to_iterator = m })
          ≡ some e)
        × (e ≤ now)
        × (d < e)
  unfolding pop_expired get_next_expiry
  descends_list n now i d [] m f out left = cc
  descends_list n now i d (x ∷ xs) m f out left =
      (x.deadline, refl, ground arith, ground (arith, deadline_of-lt i x.deadline d xs f))

  -- Handlers come out from the latest deadline to the earliest: what is left after a `pop_expired`
  -- that hands out a handler has deadlines below the one that was reported next.
  pub pop_expired_descends :
      (q : TimerQueue H) (now i d : ℕ) {h : H}
      → Inv q
      → (pop_expired now q).1 ≡ some h
      → Pending (pop_expired now q).0 i d
      → (e : ℕ) × (get_next_expiry q ≡ some e) × (e ≤ now) × (d < e)
  pop_expired_descends q now i d {h} v out left =
      descends_list q.next_id now i d q.timers q.id_to_iterator {h = h} v.falling out left
