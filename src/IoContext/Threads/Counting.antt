-- ===== src/IoContext/Threads/Counting.antt =====
-- The timer handlers that pass a test, in each place where they can be.
use svarog_io.Common.{
  ℕ, ◌+◌, ◌≡◌, refl, inl, inr, Bool, List, [], ◌∷◌, ◌++◌, map, arith, some, if◌then◌else◌,
  Option-cases,
}
use svarog_io.Common.Maps.{find}
use svarog_io.Common.Counting.{weigh, count}
use svarog_io.TimerQueue.{
  TimerEntry, TimerQueue, emplace, erase_node, add_timer, cancel_timer, pop_expired,
}
use svarog_io.IoContext.{Item, posted, fired}
use svarog_io.IoContext.Threads.{
  Pc, pushing, fired_in, pending, handler_at, withdrawn_by, entered_by,
}

module _ {ℓ} {H : Type ℓ} (p : H → Bool) where
  -- What a thread carries from the timer queue to the handler queue.
  abbrev pub carried : Pc H → ℕ
  carried (pushing now h) = weigh p h
  carried _ = 0

  pub count-fired_append :
      (xs ys : List (Item H))
      → count p (fired_in (xs ++ ys)) ≡ count p (fired_in xs) + count p (fired_in ys)
  count-fired_append [] ys = omega arith
  count-fired_append (posted h ∷ xs) ys = count-fired_append xs ys
  count-fired_append (fired h ∷ xs) ys = omega (arith, count-fired_append xs ys)

  count-emplace :
      (e : TimerEntry H) (es : List (TimerEntry H))
      → count p (map (λ e. e.handler) (emplace e es).0)
        ≡ count p (map (λ e. e.handler) es)
          + count p (if (emplace e es).1 then e.handler ∷ [] else [])
  unfolding emplace
  count-emplace e [] = omega arith
  count-emplace e (x ∷ xs) = ground (arith, count-emplace e xs)

  pub count-add_timer :
      (deadline : ℕ) (h : H) (q : TimerQueue H)
      → count p (pending (add_timer deadline h q).0)
        ≡ count p (pending q) + count p (entered_by deadline h q)
  unfolding add_timer entered_by
  count-add_timer deadline h q =
      count-emplace (record { id = q.next_id; deadline = deadline; handler = h }) q.timers

  count-erase_node :
      (d : ℕ) (es : List (TimerEntry H))
      → count p (map (λ e. e.handler) (erase_node d es)) + count p (handler_at d es)
        ≡ count p (map (λ e. e.handler) es)
  unfolding erase_node handler_at
  count-erase_node d [] = refl
  count-erase_node d (x ∷ xs) = ground (arith, count-erase_node d xs)

  pub count-cancel_timer :
      (id : ℕ) (q : TimerQueue H)
      → count p (pending (cancel_timer id q).0) + count p (withdrawn_by id q) ≡ count p (pending q)
  unfolding cancel_timer withdrawn_by
  count-cancel_timer id q = elim (Option-cases (find id q.id_to_iterator)) [
    | inl absent ↦ ground (arith, absent)
    | inr (d, there) ↦ ground (arith, there, count-erase_node d q.timers)
  ]

  count-pop_list :
      (now next_id : ℕ) (es : List (TimerEntry H)) (m : List (ℕ × ℕ)) (h : H)
      → (pop_expired now (record { next_id = next_id; timers = es; id_to_iterator = m })).1 ≡ some h
      → count p (
            pending
              (pop_expired now (record { next_id = next_id; timers = es; id_to_iterator = m })).0)
          + weigh p h
        ≡ count p (map (λ e. e.handler) es)
  unfolding pop_expired
  count-pop_list now next_id [] m h e = absurd (ground (arith, e))
  count-pop_list now next_id (x ∷ xs) m h e = ground (arith, e)

  pub count-pop_expired :
      (now : ℕ) (q : TimerQueue H) (h : H)
      → (pop_expired now q).1 ≡ some h
      → count p (pending (pop_expired now q).0) + weigh p h ≡ count p (pending q)
  count-pop_expired now q h e = count-pop_list now q.next_id q.timers q.id_to_iterator h e
