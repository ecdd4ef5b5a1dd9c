-- ===== src/IoContext/Threads/Conserved.antt =====
-- Where the handlers of timers are: none is lost, and none is there twice.
use svarog_io.Common.{true, ℕ, ◌+◌, ◌<◌, ◌≡◌, refl, ap, Bool, false, List, [], ◌∷◌, arith}
use svarog_io.Common.Counting.{count, count-append}
use svarog_io.Common.Family.{total, total-update, total-eq-zero}
use svarog_io.WorkQueue.{push_item, try_pop, stop, clear}
use svarog_io.TimerQueue.{TimerQueue}
use svarog_io.IoContext.{Item, posted, fired}
use svarog_io.IoContext.Threads.Counting.{
  carried, count-fired_append, count-add_timer, count-cancel_timer, count-pop_expired,
}
use svarog_io.IoContext.Threads.{
  Pc, run_test, queue_test, count_test, timers_test, reading, expired_test, popping, pushing,
  waiting, draining, calling, left, stopped_out, thrown_out, Crowd, fired_in, pending, start, goes,
  entered_by, withdrawn_by, adds, Move, run_again, run_stopped, run_on, has_handlers, no_handlers,
  has_guards, no_guards, has_timers, no_timers, read_clock, expired, none_expired, pop_timer,
  pop_none, push_fired, drop_fired, wait_over, take, take_none, handler_posts, handler_adds,
  handler_guards, handler_returns, handler_throws, Step, work, guest_posts, guest_adds,
  guest_guards, release_guard, cancel, flag_stop, stop_queue, clear_queue, flag_restart, tick,
  is_out, Steps, here, later,
}

module _ {ℓ} {H : Type ℓ} (p : H → Bool) where
  -- The timers entered are those pending, on their way, accepted by the queue, cancelled, dropped.
  abbrev pub Conserved : ℕ → Crowd H → Type 0
  Conserved n s =
      count p s.entered
      ≡ count p (pending s.timers)
        + total (carried p) n s.pc
        + count p (fired_in s.accepted)
        + count p s.withdrawn
        + count p s.dropped

  -- A thread outside `run` carries no timer.
  carried-out : (pc : Pc H) → is_out pc ≡ true → carried p pc ≡ 0
  carried-out left e = refl
  carried-out stopped_out e = refl
  carried-out thrown_out e = refl
  carried-out (pushing now h) e = absurd (ground (arith, e))
  carried-out _ e = refl

  goes-Conserved :
      {n : ℕ} (s : Crowd H) (i : ℕ) (next : Pc H)
      → i < n
      → carried p (s.pc i) ≡ carried p next
      → Conserved n s
      → Conserved n (goes s i next)
  goes-Conserved {n} s i next lt same v =
      omega (arith, v, same, total-update (carried p) n s.pc i next lt)

  adds-Conserved :
      (n : ℕ) (s : Crowd H) (deadline : ℕ) (h : H) → Conserved n s → Conserved n (adds deadline h s)
  adds-Conserved n s deadline h v = omega (
    arith,
    v,
    count-add_timer p deadline h s.timers,
    count-append p s.entered (entered_by deadline h s.timers),
  )

  Move-Conserved :
      {n : ℕ} {s : Crowd H} (i : ℕ) {t : Crowd H}
      → i < n
      → Conserved n s
      → Move s i t
      → Conserved n t
  Move-Conserved {s = s} i lt v (run_again e) =
      goes-Conserved s i run_test lt (carried-out (s.pc i) e) v
  Move-Conserved {s = s} i lt v (run_stopped e a) =
      goes-Conserved s i stopped_out lt (ground (arith, e)) v
  Move-Conserved {s = s} i lt v (run_on e a) =
      goes-Conserved s i queue_test lt (ground (arith, e)) v
  Move-Conserved {s = s} i lt v (has_handlers e a) =
      goes-Conserved s i reading lt (ground (arith, e)) v
  Move-Conserved {s = s} i lt v (no_handlers e a) =
      goes-Conserved s i count_test lt (ground (arith, e)) v
  Move-Conserved {s = s} i lt v (has_guards e a) =
      goes-Conserved s i reading lt (ground (arith, e)) v
  Move-Conserved {s = s} i lt v (no_guards e a) =
      goes-Conserved s i timers_test lt (ground (arith, e)) v
  Move-Conserved {s = s} i lt v (has_timers e a) =
      goes-Conserved s i reading lt (ground (arith, e)) v
  Move-Conserved {s = s} i lt v (no_timers e a) = goes-Conserved s i left lt (ground (arith, e)) v
  Move-Conserved {s = s} i lt v (read_clock e) =
      goes-Conserved s i (expired_test s.clock) lt (ground (arith, e)) v
  Move-Conserved {s = s} i lt v (expired {now} e a) =
      goes-Conserved s i (popping now) lt (ground (arith, e)) v
  Move-Conserved {s = s} i lt v (none_expired e a) =
      goes-Conserved s i waiting lt (ground (arith, e)) v
  Move-Conserved {n} {s} i lt v (pop_timer {now} {h} e a) = omega (
    arith,
    v,
    ap (carried p) e,
    count-pop_expired p s.clock s.timers h a,
    total-update (carried p) n s.pc i (pushing now h) lt,
  )
  Move-Conserved {s = s} i lt v (pop_none {now} e a) =
      goes-Conserved s i (expired_test now) lt (ground (arith, e)) v
  Move-Conserved {n} {s} i lt v (push_fired {now} {h} e a) = omega (
    arith,
    v,
    ap (carried p) e,
    count-fired_append p s.accepted (fired h ∷ []),
    total-update (carried p) n s.pc i (expired_test now) lt,
  )
  Move-Conserved {n} {s} i lt v (drop_fired {now} {h} e a) = omega (
    arith,
    v,
    ap (carried p) e,
    count-append p s.dropped (h ∷ []),
    total-update (carried p) n s.pc i (expired_test now) lt,
  )
  Move-Conserved {s = s} i lt v (wait_over e) = goes-Conserved s i draining lt (ground (arith, e)) v
  Move-Conserved {s = s} i lt v (take e a) = goes-Conserved s i calling lt (ground (arith, e)) v
  Move-Conserved {s = s} i lt v (take_none e a) =
      goes-Conserved s i run_test lt (ground (arith, e)) v
  Move-Conserved {s = s} i lt v (handler_posts h e a) =
      omega (arith, v, count-fired_append p s.accepted (posted h ∷ []))
  Move-Conserved {n} {s} i lt v (handler_adds d h e) = adds-Conserved n s d h v
  Move-Conserved i lt v (handler_guards e) = v
  Move-Conserved {s = s} i lt v (handler_returns e) =
      goes-Conserved s i draining lt (ground (arith, e)) v
  Move-Conserved {s = s} i lt v (handler_throws e) =
      goes-Conserved s i thrown_out lt (ground (arith, e)) v

  Step-Conserved : {n : ℕ} {s t : Crowd H} → Conserved n s → Step n s t → Conserved n t
  Step-Conserved v (work i lt mv) = Move-Conserved i lt v mv
  Step-Conserved {s = s} v (guest_posts h a) =
      omega (arith, v, count-fired_append p s.accepted (posted h ∷ []))
  Step-Conserved {n} {s} v (guest_adds d h) = adds-Conserved n s d h v
  Step-Conserved v guest_guards = v
  Step-Conserved v (release_guard held) = v
  Step-Conserved {s = s} v (cancel id) = omega (
    arith,
    v,
    count-cancel_timer p id s.timers,
    count-append p s.withdrawn (withdrawn_by id s.timers),
  )
  Step-Conserved v flag_stop = v
  Step-Conserved v (stop_queue e) = v
  Step-Conserved v clear_queue = v
  Step-Conserved v (flag_restart e) = v
  Step-Conserved v (tick k) = v

  pub Steps-Conserved : {n : ℕ} {s t : Crowd H} → Conserved n s → Steps n s t → Conserved n t
  Steps-Conserved v here = v
  Steps-Conserved v (later r st) = Step-Conserved (Steps-Conserved v r) st

  pub start-Conserved :
      (n : ℕ) (q : List (Item H)) (guards : ℕ) (timers : TimerQueue H) (clock : ℕ)
      → Conserved n (start q guards timers clock)
  start-Conserved n q guards timers clock = omega (
    arith,
    count-append p (pending timers) (fired_in q),
    total-eq-zero (carried p) n (λ i. run_test) (λ i. refl),
  )

module _ {ℓ} {H : Type ℓ} where
  -- Only a stopped queue has refused anything.
  abbrev pub Undropped : Crowd H → Type ℓ
  Undropped s = s.handlers.is_stopped ≡ false → s.dropped ≡ []

  Move-Undropped : {s : Crowd H} (i : ℕ) {t : Crowd H} → Undropped s → Move s i t → Undropped t
  unfolding push_item try_pop
  Move-Undropped i v (push_fired e a) = λ h. v (ground (arith, h, a))
  Move-Undropped i v (drop_fired e a) = λ h. absurd (ground (arith, h, a))
  Move-Undropped i v (take e a) = λ h. v (ground (arith, h, a))
  Move-Undropped i v (handler_posts h e a) = λ k. v (ground (arith, k, a))
  Move-Undropped i v mv = v

  Step-Undropped : {n : ℕ} {s t : Crowd H} → Undropped s → Step n s t → Undropped t
  unfolding push_item stop clear
  Step-Undropped v (work i lt mv) = Move-Undropped i v mv
  Step-Undropped v (guest_posts h a) = λ k. v (ground (arith, k, a))
  Step-Undropped v (stop_queue e) = λ h. absurd (ground (arith, h))
  Step-Undropped v st = v

  pub Steps-Undropped : {n : ℕ} {s t : Crowd H} → Undropped s → Steps n s t → Undropped t
  Steps-Undropped v here = v
  Steps-Undropped v (later r st) = Step-Undropped (Steps-Undropped v r) st
