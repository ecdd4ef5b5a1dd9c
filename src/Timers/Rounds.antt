-- ===== src/Timers/Rounds.antt =====
-- The rounds of `run` in a context whose only work is one timer.
use svarog_io.Common.{ℕ, suc, ◌≤◌, ◌<◌, ◌≡◌, refl, false, [], ◌∷◌, arith}
use svarog_io.Outcome.{returned}
use svarog_io.WorkQueue.{try_pop, is_idle, push_item}
use svarog_io.TimerQueue
use svarog_io.TimerQueue.{
  TimerQueue, TimerEntry, has_expired, pop_expired, get_next_expiry, invalid_timer_id, add_timer,
  emplace,
}
use svarog_io.IoContext.{
  Context, Env, Item, fired, drain, run_loop, has_pending_work, process_timers, process_timers_loop,
  calculate_timeout, get_next_timer_timeout,
}
use svarog_io.IoContext.Draining.{Plain, loop_idle}

module _ {ℓ} {H W : Type ℓ} (env : Env H W) where
  -- The context after the round that finds its only timer expired, before the handler is called.
  unfoldable pub popped : Context H W → H → Context H W
  popped c h = record c {
    reads = suc (suc c.reads);
    timers = (pop_expired (env.clock (suc c.reads)) c.timers).0;
    handlers = record c.handlers { items = fired h ∷ [] };
  }

  process_due :
      (fuel : ℕ) (c : Context H W) (e : TimerEntry H)
      → c.timers.timers ≡ e ∷ []
      → c.handlers.items ≡ []
      → c.handlers.is_stopped ≡ false
      → e.deadline ≤ env.clock c.reads
      → env.clock c.reads ≤ env.clock (suc c.reads)
      → process_timers env (suc (suc fuel)) c ≡ returned (popped c e.handler) tt
  unfolding process_timers process_timers_loop has_expired pop_expired push_item popped
  process_due fuel c e one empty live due mono = ground (arith, one, empty, live)

  process_waits :
      (fuel : ℕ) (c : Context H W) (e : TimerEntry H)
      → c.timers.timers ≡ e ∷ []
      → env.clock c.reads < e.deadline
      → process_timers env (suc fuel) c ≡ returned (record c { reads = suc c.reads }) tt
  unfolding process_timers process_timers_loop has_expired
  process_waits fuel c e one early = ground (arith, one)

  -- Without a work guard the reactor is asked not to wait.
  timeout_waits :
      (c : Context H W) (e : TimerEntry H)
      → c.timers.timers ≡ e ∷ []
      → c.handlers.items ≡ []
      → c.work_count ≡ 0
      → calculate_timeout env c ≡ returned (record c { reads = suc c.reads }) 0
  unfolding calculate_timeout get_next_timer_timeout get_next_expiry is_idle
  timeout_waits c e one empty free = ground (arith, one, empty, free)

module _ {ℓ} {H W : Type ℓ} (env : Env H W) (act : Item H → W → W) (plain : Plain env act)
    (still : (t : ℕ) (c : Context H W) → env.reactor_run_one t c ≡ returned c 0)
    (mono : (i j : ℕ) → i ≤ j → env.clock i ≤ env.clock j) where
  -- The context when `run` has called the handler of its only timer.
  unfoldable pub called : Context H W → H → Context H W
  unfolding popped
  called c h = record (popped env c h) {
    handlers = record c.handlers { items = [] };
    world = act (fired h) c.world;
  }

  drain_nothing :
      (fuel : ℕ) (c : Context H W) → c.handlers.items ≡ [] → drain env (suc fuel) c ≡ returned c 0
  unfolding drain try_pop
  drain_nothing fuel c empty = ground (arith, empty)

  drain_fired :
      (fuel : ℕ) (c : Context H W) (h : H)
      → drain env (suc (suc fuel)) (popped env c h) ≡ returned (called c h) 1
  unfolding popped called drain try_pop
  drain_fired fuel c h = ground (
    arith,
    plain (fired h) (record (popped env c h) { handlers = record c.handlers { items = [] } }),
  )

  timeout_fired :
      (c : Context H W) (h : H)
      → calculate_timeout env (popped env c h) ≡ returned (popped env c h) 0
  unfolding popped calculate_timeout is_idle
  timeout_fired c h = refl

  pub called_idle :
      (c : Context H W) (e : TimerEntry H)
      → c.timers.timers ≡ e ∷ []
      → e.deadline ≤ env.clock c.reads
      → (called c e.handler).timers.timers ≡ []
  unfolding called popped pop_expired
  called_idle c e one due = ground (arith, one, due, mono c.reads (suc c.reads) (omega arith))

  idle_after :
      (fuel : ℕ) (c : Context H W) (e : TimerEntry H)
      → c.work_count ≡ 0
      → c.timers.timers ≡ e ∷ []
      → e.deadline ≤ env.clock c.reads
      → run_loop env (suc fuel) (called c e.handler) ≡ returned (called c e.handler) tt
  unfolding called popped
  idle_after fuel c e free one due =
      loop_idle env (suc fuel) (called c e.handler) refl free (called_idle c e one due)
        (omega arith)

  pub round_fires :
      (fuel : ℕ) (c : Context H W) (e : TimerEntry H)
      → c.is_stopped ≡ false
      → c.work_count ≡ 0
      → c.timers.timers ≡ e ∷ []
      → c.handlers.items ≡ []
      → c.handlers.is_stopped ≡ false
      → e.deadline ≤ env.clock c.reads
      → run_loop env (suc (suc (suc fuel))) c ≡ returned (called c e.handler) tt
  unfolding run_loop has_pending_work TimerQueue.is_idle
  round_fires fuel c e live free one empty open_queue due =
      let p = popped env c e.handler in
      ground (
        arith,
        live,
        free,
        one,
        process_due env fuel c e one empty open_queue due
            (mono c.reads (suc c.reads) (omega arith)),
        timeout_fired c e.handler,
        still 0 p,
        drain_fired fuel c e.handler,
        idle_after (suc fuel) c e free one due,
      )

  pub round_waits :
      (fuel : ℕ) (c : Context H W) (e : TimerEntry H)
      → c.is_stopped ≡ false
      → c.work_count ≡ 0
      → c.timers.timers ≡ e ∷ []
      → c.handlers.items ≡ []
      → env.clock c.reads < e.deadline
      → run_loop env (suc (suc fuel)) c
        ≡ run_loop env (suc fuel) (record c { reads = suc (suc c.reads) })
  unfolding run_loop has_pending_work TimerQueue.is_idle
  round_waits fuel c e live free one empty early =
      let c1 : Context H W = record c { reads = suc c.reads } in
      let c2 : Context H W = record c { reads = suc (suc c.reads) } in
      ground (
        arith,
        live,
        free,
        one,
        process_waits env fuel c e one early,
        timeout_waits env c1 e one empty free,
        still 0 c2,
        drain_nothing fuel c2 empty,
      )
