-- ===== src/Tests/Crowds.antt =====
-- Two threads inside `run` of one context.
use svarog_io.Common.{ℕ, ◌+◌, ◌<◌, ◌≡◌, refl, Bool, false, [], ◌∷◌, ◌==◌, arith, length}
use svarog_io.WorkQueue.{push_item, try_pop}
use svarog_io.TimerQueue
use svarog_io.TimerQueue.{TimerQueue, emplace, add_timer, has_expired, pop_expired, is_idle}
use svarog_io.Common.Counting.{count}
use svarog_io.Common.Family.{total}
use svarog_io.IoContext.{posted, fired}
use svarog_io.IoContext.Threads.{
  left, Crowd, start, fired_in, pending, run_on, has_handlers, no_handlers, no_guards, has_timers,
  no_timers, read_clock, expired, none_expired, pop_timer, push_fired, wait_over, take, take_none,
  handler_returns, work, tick, Steps, here, later,
}
use svarog_io.IoContext.Threads.Counting.{carried}
use svarog_io.IoContext.Threads.Serving.{timers_conserved, run_leaves_none}
use svarog_io.Examples.Workers.{Working, idle, goes_on, ready, tasks, workers_call_all}
use svarog_io.IoContext.Threads.Overlooked.{guarded, guarded_post_left_behind}

-- A timer for handler 7, at 5.
abbrev timers : TimerQueue ℕ
unfolding add_timer
timers = (add_timer 5 7 TimerQueue.new).0

record Run : Type 0 where
  last : Crowd ℕ
  steps : Steps 2 (start [] 0 timers 3) last

-- The first thread sees the timer, finds it expired once the clock has gone on, and takes it.
abbrev on_its_way : Run
unfolding add_timer is_idle has_expired pop_expired
on_its_way = record {
  last = _;
  steps =
      later
        (later
          (later
            (later
              (later
                (later (later (later here (tick 4)) (work 0 (omega arith) (run_on refl refl)))
                  (work 0 (omega arith) (no_handlers refl refl)))
                (work 0 (omega arith) (no_guards refl refl)))
              (work 0 (omega arith) (has_timers refl refl)))
            (work 0 (omega arith) (read_clock refl)))
          (work 0 (omega arith) (expired refl refl)))
        (work 0 (omega arith) (pop_timer refl refl));
}

-- It pushes the handler; the second thread calls it.
abbrev served : Run
unfolding add_timer is_idle has_expired pop_expired push_item try_pop
served = record {
  last = _;
  steps =
      later
        (later
          (later
            (later
              (later
                (later
                  (later
                    (later
                      (later (later on_its_way.steps (work 0 (omega arith) (push_fired refl refl)))
                        (work 0 (omega arith) (none_expired refl refl)))
                      (work 1 (omega arith) (run_on refl refl)))
                    (work 1 (omega arith) (has_handlers refl (λ e. ground (arith, e)))))
                  (work 1 (omega arith) (read_clock refl)))
                (work 1 (omega arith) (none_expired refl refl)))
              (work 1 (omega arith) (wait_over refl)))
            (work 1 (omega arith) (take refl refl)))
          (work 1 (omega arith) (handler_returns refl)))
        (work 1 (omega arith) (take_none refl refl));
}

-- Both find nothing more to do.
abbrev gone : Run
unfolding add_timer is_idle has_expired pop_expired push_item try_pop
gone = record {
  last = _;
  steps =
      later
        (later
          (later
            (later
              (later
                (later
                  (later
                    (later
                      (later (later served.steps (work 0 (omega arith) (wait_over refl)))
                        (work 0 (omega arith) (take_none refl refl)))
                      (work 0 (omega arith) (run_on refl refl)))
                    (work 0 (omega arith) (no_handlers refl refl)))
                  (work 0 (omega arith) (no_guards refl refl)))
                (work 0 (omega arith) (no_timers refl refl)))
              (work 1 (omega arith) (run_on refl refl)))
            (work 1 (omega arith) (no_handlers refl refl)))
          (work 1 (omega arith) (no_guards refl refl)))
        (work 1 (omega arith) (no_timers refl refl));
}

gone-left : (i : ℕ) → i < 2 → gone.last.pc i ≡ left
unfolding add_timer is_idle has_expired pop_expired push_item try_pop
gone-left i h = ground (arith, h)

timers_conserved_example :
    1
    ≡ count (λ k. k == 7) (pending on_its_way.last.timers)
      + total (carried (λ k. k == 7)) 2 on_its_way.last.pc
      + 0
      + 0
      + 0
      + 0
      + 0
unfolding add_timer is_idle has_expired pop_expired
timers_conserved_example = timers_conserved (λ k. k == 7) on_its_way.steps

run_leaves_none_example :
    (gone.last.accepted ≡ gone.last.started)
    × (gone.last.timers.timers ≡ [])
    × (gone.last.work_count ≡ 0)
    × ((p : ℕ → Bool)
        → count p gone.last.entered
          ≡ count p (fired_in gone.last.started) + count p gone.last.withdrawn)
unfolding add_timer is_idle has_expired pop_expired push_item try_pop
run_leaves_none_example = run_leaves_none (omega arith) gone.steps gone-left refl refl refl refl

-- Thread 1 has called the handler of the timer that thread 0 took.
served_once : gone.last.started ≡ fired 7 ∷ []
unfolding add_timer is_idle has_expired pop_expired push_item try_pop
served_once = refl

guarded_post_left_behind_example :
    (s : Crowd ℕ) × Steps 3 guarded s
    × ((i : ℕ) → i < 3 → s.pc i ≡ left)
    × (s.guests ≡ 1)
    × (s.unguarded ≡ 0)
    × (s.work_count ≡ 0)
    × (s.is_stopped ≡ false)
    × (s.handlers ≡ record { items = posted 7 ∷ []; is_stopped = false })
    × (s.accepted ≡ posted 7 ∷ [])
    × (s.started ≡ [])
guarded_post_left_behind_example = guarded_post_left_behind 3 7

-- Example 3 with one worker and one task.
abbrev one_task : (s : Crowd ℕ) × Working 1 (ready 1) s
unfolding is_idle has_expired try_pop
one_task = (
  _,
  goes_on 0 (omega arith)
      (goes_on 0 (omega arith)
        (goes_on 0 (omega arith)
          (goes_on 0 (omega arith)
            (goes_on 0 (omega arith)
              (goes_on 0 (omega arith)
                (goes_on 0 (omega arith)
                  (goes_on 0 (omega arith)
                    (goes_on 0 (omega arith)
                      (goes_on 0 (omega arith)
                        (goes_on 0 (omega arith)
                          (goes_on 0 (omega arith) idle (run_on refl refl) refl)
                          (has_handlers refl (λ e. ground (arith, e))) refl)
                        (read_clock refl) refl)
                      (none_expired refl refl) refl)
                    (wait_over refl) refl)
                  (take refl refl) refl)
                (handler_returns refl) refl)
              (take_none refl refl) refl)
            (run_on refl refl) refl)
          (no_handlers refl refl) refl)
        (no_guards refl refl) refl)
      (no_timers refl refl) refl,
)

workers_called : (one_task.0.started ≡ tasks 1) × (length one_task.0.started ≡ 1)
unfolding is_idle has_expired try_pop
workers_called = workers_call_all (omega arith) one_task.1 (λ i h. ground (arith, h))
