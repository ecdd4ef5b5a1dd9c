-- ===== src/IoContext/Threads/Kept.antt =====
-- Where the handlers are that the queue has accepted.
use svarog_io.Common.{Bool-cases, true, inl, inr, ℕ, ◌+◌, ◌≡◌, ap, Bool, [], ◌∷◌, ◌++◌, arith}
use svarog_io.Common.Counting.{count}
use svarog_io.WorkQueue.{WorkQueue, value, push_item, try_pop, stop, clear}
use svarog_io.IoContext.{Item, posted, fired}
use svarog_io.IoContext.Threads.Counting.{count-fired_append}
use svarog_io.IoContext.Threads.{
  Crowd, fired_in, accepts, Move, push_fired, take, handler_posts, Step, work, guest_posts,
  clear_queue, Steps, here, later,
}

-- `try_pop` takes the first item.
try_pop_first {ℓ} :
    {A : Type ℓ} (r q : WorkQueue A) (x : A) → try_pop r ≡ (q, value x) → r.items ≡ x ∷ q.items
unfolding try_pop
try_pop_first r q x e = ground (arith, e)

module _ {ℓ} {H : Type ℓ} (p : H → Bool) where
  -- The handlers of timers that the queue has accepted are those started, queued and destroyed.
  abbrev pub Kept : Crowd H → Type 0
  Kept s =
      count p (fired_in s.accepted)
      ≡ count p (fired_in s.started)
        + count p (fired_in s.handlers.items)
        + count p (fired_in s.discarded)

  accepts-Kept :
      (s : Crowd H) (x : Item H) → (push_item x s.handlers).1 ≡ true → Kept s → Kept (accepts x s)
  unfolding push_item
  accepts-Kept s x ok v = elim (Bool-cases s.handlers.is_stopped) [
    | inl off ↦ absurd (ground (arith, ok, off))
    | inr on ↦ ground (
      arith,
      on,
      v,
      count-fired_append p s.accepted (x ∷ []),
      count-fired_append p s.handlers.items (x ∷ []),
    )
  ]

  take-Kept :
      (s : Crowd H) (q : WorkQueue (Item H)) (x : Item H)
      → try_pop s.handlers ≡ (q, value x)
      → Kept s
      → Kept (record s { handlers = q; started = s.started ++ x ∷ [] })
  take-Kept s q x e v = omega (
    arith,
    v,
    count-fired_append p s.started (x ∷ []),
    count-fired_append p (x ∷ []) q.items,
    ap (λ xs. count p (fired_in xs)) (try_pop_first s.handlers q x e),
  )

  Move-Kept : {s : Crowd H} (i : ℕ) {t : Crowd H} → Kept s → Move s i t → Kept t
  Move-Kept {s = s} i v (push_fired {now} {h} e ok) = accepts-Kept s (fired h) ok v
  Move-Kept {s = s} i v (take {q} {x} e a) = take-Kept s q x a v
  Move-Kept {s = s} i v (handler_posts h e ok) = accepts-Kept s (posted h) ok v
  Move-Kept i v mv = v

  Step-Kept : {n : ℕ} {s t : Crowd H} → Kept s → Step n s t → Kept t
  unfolding stop clear
  Step-Kept v (work i lt mv) = Move-Kept i v mv
  Step-Kept {s = s} v (guest_posts h ok) = accepts-Kept s (posted h) ok v
  Step-Kept {s = s} v clear_queue =
      omega (arith, v, count-fired_append p s.discarded s.handlers.items)
  Step-Kept v st = v

  pub Steps-Kept : {n : ℕ} {s t : Crowd H} → Kept s → Steps n s t → Kept t
  Steps-Kept v here = v
  Steps-Kept v (later r st) = Step-Kept (Steps-Kept v r) st
