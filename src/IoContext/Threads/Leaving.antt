-- ===== src/IoContext/Threads/Leaving.antt =====
-- The way of a thread out of `run` for want of work, and what the threads have seen on it.
use svarog_io.Common.{
  ℕ, ◌≤◌, ◌<◌, ◌≡◌, refl, true, List, [], ◌∷◌, ◌++◌, arith, is_empty, append_assoc,
}
use svarog_io.WorkQueue.{push_item, try_pop}
use svarog_io.TimerQueue.{is_idle}
use svarog_io.IoContext.{Item, posted, fired}
use svarog_io.IoContext.Threads.{
  Pc, run_test, queue_test, count_test, timers_test, reading, expired_test, popping, waiting,
  draining, left, stopped_out, thrown_out, Crowd, goes, accepts, Move, run_again, run_stopped,
  run_on, has_handlers, no_handlers, has_guards, no_guards, has_timers, no_timers, read_clock,
  expired, none_expired, pop_timer, pop_none, push_fired, drop_fired, wait_over, take, take_none,
  handler_posts, handler_adds, handler_guards, handler_returns, handler_throws,
}

-- How far a thread is from `left`: 3 from where it reads the handler queue again before it leaves.
abbrev pub distance {ℓ} : {H : Type ℓ} → Pc H → ℕ
distance count_test = 2
distance timers_test = 1
distance left = 0
distance _ = 3

is_empty-nil {ℓ} : {A : Type ℓ} (xs : List A) → is_empty xs ≡ true → xs ≡ []
is_empty-nil [] e = refl
is_empty-nil (x ∷ xs) e = absurd (ground (arith, e))

module _ {ℓ} {H : Type ℓ} where
  abbrev pub Within : ℕ → ℕ → Crowd H → Type 0
  Within n k s = (i : ℕ) → i < n → distance (s.pc i) ≤ k

  -- As long as `restart` has destroyed no handler, those accepted are those started and queued.
  abbrev pub Ordered : Crowd H → Type ℓ
  Ordered s = s.discarded ≡ [] → s.accepted ≡ s.started ++ s.handlers.items

  -- What the threads have seen once they all are so far.
  pub record Settled (n : ℕ) (s : Crowd H) : Type ℓ where
    pub no_item : s.guests ≡ 0 → Within n 2 s → s.handlers.items ≡ []
    pub no_guard : s.unguarded ≡ 0 → Within n 1 s → s.work_count ≡ 0
    pub no_timer : s.unguarded ≡ 0 → Within n 0 s → s.timers.timers ≡ []
    pub in_order : Ordered s

  pub accepts-order :
      (x : Item H) (s : Crowd H)
      → (push_item x s.handlers).1 ≡ true
      → Ordered s
      → Ordered (accepts x s)
  unfolding push_item
  accepts-order x s ok order kept =
      ground (arith, ok, order kept, append_assoc s.started s.handlers.items (x ∷ []))

  -- A thread that is far from leaving has nothing to answer for.
  pub far-Settled :
      {n : ℕ} {s : Crowd H} (i : ℕ) → i < n → 3 ≤ distance (s.pc i) → Ordered s → Settled n s
  far-Settled i lt far order = record {
    no_item = λ g near. absurd (omega (arith, near i lt, far));
    no_guard = λ u near. absurd (omega (arith, near i lt, far));
    no_timer = λ u near. absurd (omega (arith, near i lt, far));
    in_order = order;
  }

  -- Thread `i` goes on at a `p` that is far from leaving.
  goes-Settled :
      {n : ℕ} (s : Crowd H) (i : ℕ) (p : Pc H)
      → i < n
      → distance p ≡ 3
      → Ordered s
      → Settled n (goes s i p)
  goes-Settled s i p lt far order = far-Settled i lt (ground (arith, far)) order

  -- Thread `i` goes nearer to leaving, the others being where they were.
  Within-back :
      (n k : ℕ) (s : Crowd H) (i : ℕ) (p : Pc H)
      → distance (s.pc i) ≤ k
      → Within n k (goes s i p)
      → Within n k s
  Within-back n k s i p at near = λ j lt. ground (arith, at, near j lt)

  pub Within-le : (n a b : ℕ) (s : Crowd H) → a ≤ b → Within n a s → Within n b s
  Within-le n a b s le near = λ i lt. omega (arith, le, near i lt)

  -- The three steps towards leaving, each with what the thread saw.
  no_handlers-Settled :
      {n : ℕ} (s : Crowd H) (i : ℕ)
      → i < n
      → distance (s.pc i) ≡ 3
      → s.handlers.items ≡ []
      → Ordered s
      → Settled n (goes s i count_test)
  no_handlers-Settled s i lt at unqueued order = record {
    no_item = λ g near. unqueued;
    no_guard = λ u near. absurd (ground (arith, near i lt));
    no_timer = λ u near. absurd (ground (arith, near i lt));
    in_order = order;
  }

  no_guards-Settled :
      {n : ℕ} {s : Crowd H} (i : ℕ)
      → i < n
      → distance (s.pc i) ≡ 2
      → s.work_count ≡ 0
      → Settled n s
      → Settled n (goes s i timers_test)
  no_guards-Settled {n} {s} i lt at unheld v = record {
    no_item = λ g near. v.no_item g (Within-back n 2 s i timers_test (omega (arith, at)) near);
    no_guard = λ u near. unheld;
    no_timer = λ u near. absurd (ground (arith, near i lt));
    in_order = v.in_order;
  }

  no_timers-Settled :
      {n : ℕ} {s : Crowd H} (i : ℕ)
      → i < n
      → distance (s.pc i) ≡ 1
      → is_idle s.timers ≡ true
      → Settled n s
      → Settled n (goes s i left)
  unfolding is_idle
  no_timers-Settled {n} {s} i lt at idle v = record {
    no_item = λ g near. v.no_item g (Within-back n 2 s i left (omega (arith, at)) near);
    no_guard = λ u near. v.no_guard u (Within-back n 1 s i left (omega (arith, at)) near);
    no_timer = λ u near. is_empty-nil s.timers.timers idle;
    in_order = v.in_order;
  }

  accepts-Settled :
      {n : ℕ} (s : Crowd H) (i : ℕ) (x : Item H)
      → i < n
      → distance (s.pc i) ≡ 3
      → (push_item x s.handlers).1 ≡ true
      → Ordered s
      → Settled n (accepts x s)
  accepts-Settled s i x lt far ok order =
      far-Settled i lt (omega (arith, far)) (accepts-order x s ok order)

  pub Move-Settled :
      {n : ℕ} {s : Crowd H} (i : ℕ) {t : Crowd H} → i < n → Settled n s → Move s i t → Settled n t
  unfolding try_pop
  Move-Settled {s = s} i lt v (run_again e) = goes-Settled s i run_test lt refl v.in_order
  Move-Settled {s = s} i lt v (run_stopped e a) = goes-Settled s i stopped_out lt refl v.in_order
  Move-Settled {s = s} i lt v (run_on e a) = goes-Settled s i queue_test lt refl v.in_order
  Move-Settled {s = s} i lt v (has_handlers e a) = goes-Settled s i reading lt refl v.in_order
  Move-Settled {s = s} i lt v (no_handlers e a) =
      no_handlers-Settled s i lt (ground (arith, e)) a v.in_order
  Move-Settled {s = s} i lt v (has_guards e a) = goes-Settled s i reading lt refl v.in_order
  Move-Settled i lt v (no_guards e a) = no_guards-Settled i lt (ground (arith, e)) a v
  Move-Settled {s = s} i lt v (has_timers e a) = goes-Settled s i reading lt refl v.in_order
  Move-Settled i lt v (no_timers e a) = no_timers-Settled i lt (ground (arith, e)) a v
  Move-Settled {s = s} i lt v (read_clock e) =
      goes-Settled s i (expired_test s.clock) lt refl v.in_order
  Move-Settled {s = s} i lt v (expired {now} e a) =
      goes-Settled s i (popping now) lt refl v.in_order
  Move-Settled {s = s} i lt v (none_expired e a) = goes-Settled s i waiting lt refl v.in_order
  Move-Settled i lt v (pop_timer e a) = far-Settled i lt (ground arith) v.in_order
  Move-Settled {s = s} i lt v (pop_none {now} e a) =
      goes-Settled s i (expired_test now) lt refl v.in_order
  Move-Settled {s = s} i lt v (push_fired {now} {h} e ok) =
      far-Settled i lt (ground arith) (accepts-order (fired h) s ok v.in_order)
  Move-Settled i lt v (drop_fired e a) = far-Settled i lt (ground arith) v.in_order
  Move-Settled {s = s} i lt v (wait_over e) = goes-Settled s i draining lt refl v.in_order
  Move-Settled {s = s} i lt v (take {q} {x} e a) =
      far-Settled i lt (ground arith)
        (λ kept. ground (arith, v.in_order kept, a, append_assoc s.started (x ∷ []) q.items))
  Move-Settled {s = s} i lt v (take_none e a) = goes-Settled s i run_test lt refl v.in_order
  Move-Settled {s = s} i lt v (handler_posts h e ok) =
      accepts-Settled s i (posted h) lt (ground (arith, e)) ok v.in_order
  Move-Settled i lt v (handler_adds d h e) = far-Settled i lt (ground (arith, e)) v.in_order
  Move-Settled i lt v (handler_guards e) = far-Settled i lt (ground (arith, e)) v.in_order
  Move-Settled {s = s} i lt v (handler_returns e) = goes-Settled s i draining lt refl v.in_order
  Move-Settled {s = s} i lt v (handler_throws e) = goes-Settled s i thrown_out lt refl v.in_order
