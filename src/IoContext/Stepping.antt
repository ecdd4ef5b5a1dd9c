-- ===== src/IoContext/Stepping.antt =====
-- The loop `while (ctx.run_one() > 0)`, with which examples/io_context/main.cpp executes handlers one
-- at a time.
use svarog_io.Common.{
  ℕ, zero, suc, ◌+◌, ◌<◌, ◌≡◌, true, false, List, [], ◌∷◌, arith, length, ltb, if◌then◌else◌, min,
}
use svarog_io.Outcome.{M, returned, unfinished, ◌>>=◌, pure}
use svarog_io.WorkQueue.{try_pop, is_idle}
use svarog_io.TimerQueue.{get_next_expiry}
use svarog_io.IoContext.Draining.{Plain, call_all, at_items, timers_idle}
use svarog_io.IoContext.{
  Context, Env, Item, run_one, calculate_timeout, get_next_timer_timeout, milliseconds_max,
  max_wait,
}

-- How many calls of `run_one` have called something before one has not.
unfoldable pub run_each {ℓ} : {H W : Type ℓ} → Env H W → ℕ → M (Context H W) ℕ
unfolding run_one
run_each env zero c = unfinished
run_each env (suc fuel) c =
    let again = run_each env fuel in
    (do
      count ← run_one env fuel
      if ltb 0 count then (do rest ← again; pure (suc rest)) else pure 0)
      c

module _ {ℓ} {H W : Type ℓ} (env : Env H W) (act : Item H → W → W) (plain : Plain env act)
    (still : (t : ℕ) (c : Context H W) → env.reactor_run_one t c ≡ returned c 0) where
  run_one_item :
      (fuel : ℕ) (c : Context H W) (x : Item H) (xs : List (Item H)) (w : W)
      → c.timers.timers ≡ []
      → 0 < fuel
      → run_one env fuel (at_items c (x ∷ xs) w)
        ≡ returned (at_items (record c { reads = suc c.reads; is_current = false }) xs (act x w)) 1
  unfolding run_one try_pop
  run_one_item fuel c x xs w no_timers enough = ground (
    arith,
    timers_idle env fuel (at_items (record c { is_current = true }) (x ∷ xs) w) no_timers enough,
    plain x (at_items (record c { reads = suc c.reads; is_current = true }) xs w),
  )

  -- The time-out of a context without handlers and timers depends on its guards.
  timeout_idle :
      (c : Context H W) (w : W)
      → c.timers.timers ≡ []
      → (t : ℕ) × (calculate_timeout env (at_items c [] w) ≡ returned (at_items c [] w) t)
  unfolding calculate_timeout get_next_timer_timeout get_next_expiry is_idle
  timeout_idle c w no_timers =
      (if ltb 0 c.work_count then min milliseconds_max max_wait else 0, ground (arith, no_timers))

  run_one_none :
      (fuel : ℕ) (c : Context H W) (w : W)
      → c.timers.timers ≡ []
      → 0 < fuel
      → run_one env fuel (at_items c [] w)
        ≡ returned (at_items (record c { reads = suc c.reads; is_current = false }) [] w) 0
  unfolding run_one try_pop
  run_one_none fuel c w no_timers enough =
      let d : Context H W = record c { reads = suc c.reads; is_current = true } in
      let (t, none_due) = timeout_idle d w no_timers in
      ground (
        arith,
        timers_idle env fuel (at_items (record c { is_current = true }) [] w) no_timers enough,
        none_due,
        still t (at_items d [] w),
      )

  run_each_items :
      (fuel : ℕ) (c : Context H W) (xs : List (Item H)) (w : W)
      → c.timers.timers ≡ []
      → length xs + 1 < fuel
      → (k : ℕ) × (run_each env fuel (at_items c xs w)
          ≡ returned
              (at_items (record c { reads = k; is_current = false }) [] (call_all act xs w))
              (length xs))
  unfolding run_each call_all
  run_each_items zero c xs w no_timers enough = absurd (omega arith)
  run_each_items (suc fuel) c [] w no_timers enough =
      (suc c.reads, ground (arith, run_one_none fuel c w no_timers (omega arith)))
  run_each_items (suc fuel) c (x ∷ xs) w no_timers enough =
      let d : Context H W = record c { reads = suc c.reads; is_current = false } in
      let (k, rest) = run_each_items fuel d xs (act x w) no_timers (omega arith) in
      (k, ground (arith, run_one_item fuel c x xs w no_timers (omega arith), rest))

  -- `while (ctx.run_one() > 0)` ends, and does not ask whether the context is stopped: without
  -- timers, over plain handlers and a reactor that has nothing to do, with more fuel than queued
  -- items and two rounds, it has called every queued handler once, in order, as many rounds as there
  -- were handlers, and has changed nothing else of the context but the clock readings, also when
  -- `stop` has been called.
  pub run_each_calls_all :
      (fuel : ℕ) (c : Context H W)
      → c.timers.timers ≡ []
      → length c.handlers.items + 1 < fuel
      → (k : ℕ) × (run_each env fuel c
          ≡ returned
              (record c {
                handlers = record c.handlers { items = [] };
                world = call_all act c.handlers.items c.world;
                reads = k;
                is_current = false;
              })
              (length c.handlers.items))
  run_each_calls_all fuel c no_timers enough =
      run_each_items fuel c c.handlers.items c.world no_timers enough
