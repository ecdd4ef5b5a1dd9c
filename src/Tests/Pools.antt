-- ===== src/Tests/Pools.antt =====
-- Runs of a thread pool whose handlers are numbers.
use svarog_io.Common.{ℕ, ◌<◌, ◌≡◌, ◌⊎◌, refl, [], ◌∷◌, true, false, ◌++◌, arith}
use svarog_io.Contracts.{debug_build, terminated}
use svarog_io.WorkQueue.{push_item, try_pop, stop}
use svarog_io.ThreadPool.{
  construct, running, closing, Pool, stopped, Step, Steps, Reach, no_token, enter_run, run_on,
  has_handlers, wait_over, take, handler_posts, handler_throws, caught_on, work, post, reset_guard,
  store_stopped, stop_handlers, request, here, later,
}
use svarog_io.ThreadPool.Running.{at_work, pool_serves}
use svarog_io.ThreadPool.Falling.{measure}
use svarog_io.ThreadPool.Stopping.{stop_returns}
use svarog_io.ThreadPool.Reviving.{stop_undone}
use svarog_io.ThreadPool.Dropping.{stop_drops_queued}

record Run : Type 0 where
  last : Pool ℕ
  reach : Reach 2 last

-- A pool of no threads is refused.
no_threads : construct {H = ℕ} debug_build 0 ≡ terminated
unfolding construct
no_threads = refl

-- Worker 1 takes handler 7, which posts 8 and throws; the worker goes back to its loop.
abbrev thrown : Run
unfolding push_item try_pop
thrown = record {
  last = _;
  reach =
      later
        (later
          (later
            (later
              (later
                (later
                  (later
                    (later
                      (later (later here (post 7 refl)) (work 1 (omega arith) (no_token refl refl)))
                      (work 1 (omega arith) (enter_run refl refl)))
                    (work 1 (omega arith) (run_on refl refl)))
                  (work 1 (omega arith) (has_handlers refl (λ e. ground (arith, e)))))
                (work 1 (omega arith) (wait_over refl)))
              (work 1 (omega arith) (take refl refl)))
            (work 1 (omega arith) (handler_posts 8 refl refl)))
          (work 1 (omega arith) (handler_throws refl)))
        (work 1 (omega arith) (caught_on refl refl));
}

pool_serves_example :
    ((i : ℕ) → at_work (thrown.last.pc i) ≡ true)
    × (thrown.last.is_stopped ≡ false)
    × ((h : ℕ) → (push_item h thrown.last.handlers).1 ≡ true)
    × (thrown.last.accepted ≡ thrown.last.started ++ thrown.last.handlers.items)
unfolding push_item try_pop
pool_serves_example = pool_serves thrown.reach refl

-- `stop` asks both workers while handler 8 is queued.
abbrev asked_both : Run
unfolding push_item try_pop stop
asked_both = record {
  last = _;
  reach =
      later
        (later
          (later (later (later thrown.reach (reset_guard refl)) (store_stopped refl))
            (stop_handlers refl))
          (request refl (omega arith)))
        (request refl (omega arith));
}

stop_returns_example :
    ((t : Pool ℕ) → Step 2 asked_both.last t → measure 2 t < measure 2 asked_both.last)
    × ((asked_both.last.joined ≡ 2) ⊎ ((t : Pool ℕ) × Step 2 asked_both.last t))
unfolding push_item try_pop stop
stop_returns_example = stop_returns asked_both.reach refl refl

stop_undone_example :
    (s : Pool ℕ) × Reach 3 s
    × (s.phase ≡ closing)
    × (s.requested ≡ 3)
    × (s.joined ≡ 3)
    × (stopped s ≡ false)
stop_undone_example = stop_undone 3 (omega arith)

stop_drops_queued_example :
    (b : Pool ℕ) × Reach 3 b
    × (b.phase ≡ running)
    × (b.accepted ≡ 7 ∷ [])
    × (b.handlers.items ≡ 7 ∷ [])
    × (b.started ≡ [])
    × (s : Pool ℕ) × Steps 3 b s
    × (s.phase ≡ closing)
    × (s.joined ≡ 3)
    × (s.accepted ≡ 7 ∷ [])
    × (s.started ≡ [])
stop_drops_queued_example = stop_drops_queued 3 7
