-- ===== src/IoContext/Threads/Serving.antt =====
-- What the threads leave behind when they have all left `run` for want of work.
use svarog_io.Common.{
  ℕ, zero, suc, ◌+◌, ◌<◌, ◌≡◌, refl, ap, ◌∙◌, inl, inr, Bool, false, List, [], ◌∷◌, ◌++◌, map,
  arith, append-nil, Option-cases, ℕ_discrete,
}
use svarog_io.Common.Counting.{count}
use svarog_io.Common.Family.{total}
use svarog_io.Common.Maps.{find}
use svarog_io.WorkQueue.{stop, clear}
use svarog_io.TimerQueue.{TimerQueue, erase_node, cancel_timer}
use svarog_io.IoContext.{Item, posted}
use svarog_io.IoContext.Threads.Leaving.{
  Within, Settled, Ordered, accepts-order, far-Settled, Within-le, Move-Settled,
}
use svarog_io.IoContext.Threads.Counting.{carried}
use svarog_io.IoContext.Threads.Conserved.{Steps-Conserved, start-Conserved, Steps-Undropped}
use svarog_io.IoContext.Threads.Kept.{Steps-Kept}
use svarog_io.IoContext.Threads.{
  Pc, left, Crowd, start, visited, fired_in, pending, Step, work, guest_posts, guest_adds,
  guest_guards, release_guard, cancel, flag_stop, stop_queue, clear_queue, flag_restart, tick,
  Steps, here, later,
}

append-nil_both {ℓ} : {A : Type ℓ} (xs ys : List A) → xs ++ ys ≡ [] → (xs ≡ []) × (ys ≡ [])
append-nil_both [] ys e = (refl, e)
append-nil_both (x ∷ xs) ys e = absurd (ground (arith, e))

module _ {ℓ} {H : Type ℓ} where
  -- `cancel_timer` adds nothing.
  cancel_timer-none :
      (id : ℕ) (q : TimerQueue H) → q.timers ≡ [] → (cancel_timer id q).0.timers ≡ []
  unfolding cancel_timer erase_node
  cancel_timer-none id q none_there = elim (Option-cases (find id q.id_to_iterator)) [
    | inl absent ↦ ground (arith, absent, none_there)
    | inr (d, there) ↦ ground (arith, there, none_there)
  ]

  -- A visit that is not counted finds a guard held.
  visited_held : (s : Crowd H) → (visited s).unguarded ≡ 0 → (s.unguarded ≡ 0) × (0 < s.work_count)
  visited_held s u = elim (ℕ_discrete s.work_count 0) [
    | yes unheld ↦ absurd (ground (arith, unheld, u))
    | no held ↦ (ground (arith, held, u), omega (arith, held))
  ]

  -- A `restart` that destroys nothing finds the queue empty.
  clear-Ordered :
      (s : Crowd H)
      → Ordered s
      → s.discarded ++ s.handlers.items ≡ []
      → s.accepted ≡ s.started ++ []
  clear-Ordered s order kept =
      let (none, unqueued) = append-nil_both s.discarded s.handlers.items kept in
      order none ∙ ap (λ xs. s.started ++ xs) unqueued

  Step-Settled : {n : ℕ} {s t : Crowd H} → Settled n s → Step n s t → Settled n t
  unfolding stop clear
  Step-Settled v (work i lt mv) = Move-Settled i lt v mv
  Step-Settled {n} {s} v (guest_posts h ok) = record {
    no_item = λ g near. absurd (omega (arith, g));
    no_guard = λ u near. v.no_guard (visited_held s u).0 near;
    no_timer = λ u near. v.no_timer (visited_held s u).0 near;
    in_order = accepts-order (posted h) s ok v.in_order;
  }
  Step-Settled {n} {s} v (guest_adds d h) = record {
    no_item = v.no_item;
    no_guard = λ u near. v.no_guard (visited_held s u).0 near;
    no_timer = λ u near.
        let (before, held) = visited_held s u in
        absurd (omega (arith, held, v.no_guard before (Within-le n 0 1 s (omega arith) near)));
    in_order = v.in_order;
  }
  Step-Settled {s = s} v guest_guards = record {
    no_item = v.no_item;
    no_guard = λ u near.
        let (before, held) = visited_held s u in
        absurd (omega (arith, held, v.no_guard before near));
    no_timer = λ u near. v.no_timer (visited_held s u).0 near;
    in_order = v.in_order;
  }
  Step-Settled v (release_guard held) = record {
    no_item = v.no_item;
    no_guard = λ u near. omega (arith, v.no_guard u near);
    no_timer = v.no_timer;
    in_order = v.in_order;
  }
  Step-Settled {s = s} v (cancel id) = record {
    no_item = v.no_item;
    no_guard = v.no_guard;
    no_timer = λ u near. cancel_timer-none id s.timers (v.no_timer u near);
    in_order = v.in_order;
  }
  Step-Settled v flag_stop = record {
    no_item = v.no_item;
    no_guard = v.no_guard;
    no_timer = v.no_timer;
    in_order = v.in_order;
  }
  Step-Settled v (stop_queue e) = record {
    no_item = v.no_item;
    no_guard = v.no_guard;
    no_timer = v.no_timer;
    in_order = v.in_order;
  }
  Step-Settled {s = s} v clear_queue = record {
    no_item = λ g near. refl;
    no_guard = v.no_guard;
    no_timer = v.no_timer;
    in_order = λ kept. clear-Ordered s v.in_order kept;
  }
  Step-Settled v (flag_restart e) = record {
    no_item = v.no_item;
    no_guard = v.no_guard;
    no_timer = v.no_timer;
    in_order = v.in_order;
  }
  Step-Settled v (tick k) = record {
    no_item = v.no_item;
    no_guard = v.no_guard;
    no_timer = v.no_timer;
    in_order = v.in_order;
  }

  pub Steps-Settled : {n : ℕ} {s t : Crowd H} → Settled n s → Steps n s t → Settled n t
  Steps-Settled v here = v
  Steps-Settled v (later r st) = Step-Settled (Steps-Settled v r) st

  start-Settled :
      (n : ℕ) (q : List (Item H)) (guards : ℕ) (timers : TimerQueue H) (clock : ℕ)
      → 0 < n
      → Settled n (start q guards timers clock)
  start-Settled n q guards timers clock some_thread =
      far-Settled 0 some_thread (omega arith) (λ kept. refl)

  total-left :
      (p : H → Bool) (n : ℕ) (pc : ℕ → Pc H)
      → ((i : ℕ) → i < n → pc i ≡ left)
      → total (carried p) n pc ≡ 0
  unfolding total
  total-left p zero pc gone = refl
  total-left p (suc n) pc gone = omega (
    arith,
    total-left p n pc (λ i lt. gone i (omega (arith, lt))),
    ap (carried p) (gone n (omega arith)),
  )

  -- No timer handler is lost or doubled: in every state that the threads inside `run` can reach, and
  -- for any test of handlers, as many handlers of timers that were entered pass it as there are among
  -- those of the pending timers, those on their way from the timers to the queue in a thread, those
  -- queued, those started, those that `restart` destroyed, those of the cancelled timers, and those
  -- that a stopped queue refused.
  pub timers_conserved :
      {n guards clock : ℕ} {q : List (Item H)} {timers : TimerQueue H} {s : Crowd H}
      → (p : H → Bool) → Steps n (start q guards timers clock) s
      → count p s.entered
        ≡ count p (pending s.timers)
          + total (carried p) n s.pc
          + count p (fired_in s.handlers.items)
          + count p (fired_in s.started)
          + count p (fired_in s.discarded)
          + count p s.withdrawn
          + count p s.dropped
  timers_conserved {n} {guards} {clock} {q} {timers} {s} p r = omega (
    arith,
    Steps-Conserved p (start-Conserved p n q guards timers clock) r,
    Steps-Kept p {s = start q guards timers clock} (omega arith) r,
  )

  -- `run` leaves nothing behind: when one or more threads have all left it for want of work, nobody
  -- outside `run` has posted meanwhile or has added a timer or made a guard while no guard was held,
  -- `restart` has destroyed no handler, no handler has called `run` or `poll` itself, and the queue is
  -- not stopped, then every handler that the queue has accepted has been started, in order, no timer is
  -- pending, no guard is held, and every timer that was entered has had its handler started once,
  -- unless it was cancelled.
  pub run_leaves_none :
      {n guards clock : ℕ} {q : List (Item H)} {timers : TimerQueue H} {s : Crowd H}
      → 0 < n
      → Steps n (start q guards timers clock) s
      → ((i : ℕ) → i < n → s.pc i ≡ left)
      → s.guests ≡ 0
      → s.unguarded ≡ 0
      → s.handlers.is_stopped ≡ false
      → s.discarded ≡ []
      → (s.accepted ≡ s.started)
        × (s.timers.timers ≡ [])
        × (s.work_count ≡ 0)
        × ((p : H → Bool) → count p s.entered ≡ count p (fired_in s.started) + count p s.withdrawn)
  run_leaves_none {n} {guards} {clock} {q} {timers} {s} some_thread r gone alone guarded opened
        kept =
      let v = Steps-Settled (start-Settled n q guards timers clock some_thread) r in
      let near : Within n 0 s = λ i lt. ground (arith, gone i lt) in
      let empty = v.no_item alone (Within-le n 0 2 s (omega arith) near) in
      let refused = Steps-Undropped (λ h. refl) r opened in
      let idle = v.no_timer guarded near in
      (
        v.in_order kept ∙ ap (λ xs. s.started ++ xs) empty ∙ append-nil s.started,
        idle,
        v.no_guard guarded (Within-le n 0 1 s (omega arith) near),
        λ p. omega (
          arith,
          timers_conserved p r,
          ap (λ xs. count p (fired_in xs)) empty,
          ap (λ es. count p (map (λ e. e.handler) es)) idle,
          ap (count p) refused,
          ap (λ xs. count p (fired_in xs)) kept,
          total-left p n s.pc gone,
        ),
      )
