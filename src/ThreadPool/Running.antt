-- ===== src/ThreadPool/Running.antt =====
-- A pool that has not been stopped.
use svarog_io.Common.{ℕ, ◌≡◌, refl, Bool, true, false, [], ◌∷◌, ◌++◌, arith, append_assoc}
use svarog_io.WorkQueue.{push_item, try_pop}
use svarog_io.ThreadPool.{
  Pc, token_test, stopped_test, run_test, queue_test, count_test, waiting, draining, stopped_again,
  token_again, clearing, reviving, caught, finished, running, Pool, goes, Move, see_token, no_token,
  see_stopped, enter_run, run_stopped, run_on, has_handlers, no_handlers, has_work, no_work,
  wait_over, take, take_none, handler_posts, handler_returns, handler_throws, caught_asked,
  caught_on, leave_stopped, not_stopped, leave_asked, restart_run, clear_handlers, revive, Step,
  work, post, reset_guard, store_stopped, stop_handlers, request, join, here, later, Reach,
}

-- In the loop of the worker or inside `run`, and not on the way out.
abbrev pub at_work : Pc → Bool
at_work stopped_again = false
at_work token_again = false
at_work clearing = false
at_work reviving = false
at_work finished = false
at_work _ = true

module _ {ℓ} {H : Type ℓ} where
  record Live (s : Pool H) : Type ℓ where
    open_context : s.is_stopped ≡ false
    open_queue : s.handlers.is_stopped ≡ false
    guarded : s.work_count ≡ 1
    unasked : s.requested ≡ 0
    busy : (i : ℕ) → at_work (s.pc i) ≡ true
    in_order : s.accepted ≡ s.started ++ s.handlers.items

  goes-Live : {s : Pool H} (i : ℕ) (p : Pc) → Live s → at_work p ≡ true → Live (goes s i p)
  goes-Live i p v works = record {
    open_context = v.open_context;
    open_queue = v.open_queue;
    guarded = v.guarded;
    unasked = v.unasked;
    busy = λ j. ground (arith, works, v.busy j);
    in_order = v.in_order;
  }

  push-Live :
      {s : Pool H} (h : H)
      → Live s
      → (push_item h s.handlers).1 ≡ true
      → Live (record s { handlers = (push_item h s.handlers).0; accepted = s.accepted ++ h ∷ [] })
  unfolding push_item
  push-Live {s} h v ok = record {
    open_context = v.open_context;
    open_queue = ground (arith, v.open_queue);
    guarded = v.guarded;
    unasked = v.unasked;
    busy = v.busy;
    in_order =
        ground (arith, v.open_queue, v.in_order, append_assoc s.started s.handlers.items (h ∷ []));
  }

  -- A worker at `p`, which is on the way out, is not there.
  not_leaving : {s : Pool H} (i : ℕ) {p : Pc} → Live s → s.pc i ≡ p → at_work p ≡ false → ⊥
  not_leaving i v e out = ground (arith, v.busy i, e, out)

  Move-Live : {s : Pool H} (i : ℕ) {t : Pool H} → Live s → Move s i t → Live t
  unfolding try_pop
  Move-Live i v (see_token e a) = absurd (ground (arith, v.unasked, a))
  Move-Live i v (no_token e a) = goes-Live i stopped_test v refl
  Move-Live i v (see_stopped e a) = absurd (ground (arith, v.open_context, a))
  Move-Live i v (enter_run e a) = goes-Live i run_test v refl
  Move-Live i v (run_stopped e a) = absurd (ground (arith, v.open_context, a))
  Move-Live i v (run_on e a) = goes-Live i queue_test v refl
  Move-Live i v (has_handlers e a) = goes-Live i waiting v refl
  Move-Live i v (no_handlers e a) = goes-Live i count_test v refl
  Move-Live i v (has_work e a) = goes-Live i waiting v refl
  Move-Live i v (no_work e a) = absurd (omega (arith, v.guarded, a))
  Move-Live i v (wait_over e) = goes-Live i draining v refl
  Move-Live {s} i v (take {q} {h} e a) = record {
    open_context = v.open_context;
    open_queue = ground (arith, v.open_queue, a);
    guarded = v.guarded;
    unasked = v.unasked;
    busy = λ j. ground (arith, v.busy j);
    in_order = ground (arith, v.in_order, a, append_assoc s.started (h ∷ []) q.items);
  }
  Move-Live i v (take_none e a) = goes-Live i run_test v refl
  Move-Live i v (handler_posts h e a) = push-Live h v a
  Move-Live i v (handler_returns e) = goes-Live i draining v refl
  Move-Live i v (handler_throws e) = goes-Live i caught v refl
  Move-Live i v (caught_asked e a) = absurd (ground (arith, v.unasked, a))
  Move-Live i v (caught_on e a) = goes-Live i token_test v refl
  Move-Live i v (leave_stopped e a) = absurd (not_leaving i v e refl)
  Move-Live i v (not_stopped e a) = absurd (not_leaving i v e refl)
  Move-Live i v (leave_asked e a) = absurd (not_leaving i v e refl)
  Move-Live i v (restart_run e a) = absurd (not_leaving i v e refl)
  Move-Live i v (clear_handlers e) = absurd (not_leaving i v e refl)
  Move-Live i v (revive e) = absurd (not_leaving i v e refl)

  -- A worker does not touch `stop`.
  Move-phase : {s : Pool H} (i : ℕ) {t : Pool H} → Move s i t → t.phase ≡ s.phase
  Move-phase i (see_token e a) = refl
  Move-phase i (no_token e a) = refl
  Move-phase i (see_stopped e a) = refl
  Move-phase i (enter_run e a) = refl
  Move-phase i (run_stopped e a) = refl
  Move-phase i (run_on e a) = refl
  Move-phase i (has_handlers e a) = refl
  Move-phase i (no_handlers e a) = refl
  Move-phase i (has_work e a) = refl
  Move-phase i (no_work e a) = refl
  Move-phase i (take e a) = refl
  Move-phase i (take_none e a) = refl
  Move-phase i mv = refl

  Step-Live : {n : ℕ} {s t : Pool H} → Live s → t.phase ≡ running → Step n s t → Live t
  Step-Live v p (work i lt m) = Move-Live i v m
  Step-Live v p (post h ok) = push-Live h v ok
  Step-Live v p (reset_guard e) = absurd (ground (arith, p))
  Step-Live v p (store_stopped e) = absurd (ground (arith, p))
  Step-Live v p (stop_handlers e) = absurd (ground (arith, p))
  Step-Live v p (request e lt) = absurd (ground (arith, p, e))
  Step-Live v p (join e a lt f) = absurd (ground (arith, p, e))

  -- `stop` never goes back.
  pub Step-running : {n : ℕ} {s t : Pool H} → t.phase ≡ running → Step n s t → s.phase ≡ running
  Step-running p (work i lt m) = ground (arith, p, Move-phase i m)
  Step-running p (post h ok) = p
  Step-running p (reset_guard e) = e
  Step-running p (store_stopped e) = absurd (ground (arith, p))
  Step-running p (stop_handlers e) = absurd (ground (arith, p))
  Step-running p (request e lt) = p
  Step-running p (join e a lt f) = p

  Reach-Live : {n : ℕ} {s : Pool H} → Reach n s → s.phase ≡ running → Live s
  Reach-Live here p = record {
    open_context = refl;
    open_queue = refl;
    guarded = refl;
    unasked = refl;
    busy = λ i. refl;
    in_order = refl;
  }
  Reach-Live (later r st) p = Step-Live (Reach-Live r (Step-running p st)) p st

  -- As long as `stop` has not been called, whatever the handlers post or throw and however the
  -- threads interleave: no worker leaves its loop or restarts the context, the context and its queue
  -- are open, so that every post is accepted, and the handlers accepted are the ones started, in
  -- order, followed by those that are queued.
  pub pool_serves :
      {n : ℕ} {s : Pool H}
      → Reach n s
      → s.phase ≡ running
      → ((i : ℕ) → at_work (s.pc i) ≡ true)
        × (s.is_stopped ≡ false)
        × ((h : H) → (push_item h s.handlers).1 ≡ true)
        × (s.accepted ≡ s.started ++ s.handlers.items)
  unfolding push_item
  pool_serves r p =
      let v = Reach-Live r p in
      (v.busy, v.open_context, λ h. ground (arith, v.open_queue), v.in_order)
