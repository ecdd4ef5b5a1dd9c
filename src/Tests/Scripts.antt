-- ===== src/Tests/Scripts.antt =====
-- What the programs of the io_context example print, and the loop over `run_one`.
use svarog_io.Common.{ℕ, ◌≡◌, refl, [], ◌∷◌, arith, ◌+◌, Option, some, none, List, false}
use svarog_io.Outcome.{Outcome, returned, threw, terminated, unfinished}
use svarog_io.Contracts.{contracts_enabled}
use svarog_io.WorkQueue
use svarog_io.WorkQueue.{push_item, try_pop}
use svarog_io.TimerQueue
use svarog_io.TimerQueue.{has_expired, get_next_expiry}
use svarog_io.IoContext.{
  Context, Env, Item, posted, new, stop, run_loop, has_pending_work, process_timers,
  process_timers_loop, calculate_timeout, get_next_timer_timeout, drain, dispatch,
}
use svarog_io.IoContext.Draining.{call_all}
use svarog_io.IoContext.Stepping.{run_each, run_each_calls_all}
use svarog_io.Examples.Contexts.{
  Lines, example_post, example_dispatch, example_run_one, example_restart,
}

-- The lines printed, if the program ends.
abbrev printed {κ} : {A : Type κ} → Outcome Lines A → Option (List ℕ)
printed (returned c a) = some c.world
printed (threw c) = none
printed terminated = none
printed unfinished = none

posted_in_order : printed (example_post 5) ≡ some (1 ∷ 2 ∷ 3 ∷ [])
unfolding example_post run_loop has_pending_work WorkQueue.is_idle push_item process_timers
    process_timers_loop has_expired calculate_timeout drain try_pop TimerQueue.is_idle
posted_in_order = refl

dispatched_at_once : printed (example_dispatch 5) ≡ some (1 ∷ 2 ∷ 3 ∷ 4 ∷ 5 ∷ [])
unfolding example_dispatch run_loop has_pending_work WorkQueue.is_idle push_item process_timers
    process_timers_loop has_expired calculate_timeout drain try_pop dispatch contracts_enabled
    TimerQueue.is_idle
dispatched_at_once = refl

one_at_a_time : printed (example_run_one 6) ≡ some (1 ∷ 2 ∷ 3 ∷ [])
unfolding example_run_one process_timers process_timers_loop has_expired calculate_timeout try_pop
    push_item WorkQueue.is_idle get_next_timer_timeout get_next_expiry
one_at_a_time = refl

-- The task that is posted after `restart` is not printed.
nothing_after_restart : printed (example_restart 5 (record (new []) { work_count = 1 })) ≡ some []
unfolding example_restart run_loop has_pending_work WorkQueue.is_idle push_item WorkQueue.clear
    WorkQueue.stop TimerQueue.is_idle
nothing_after_restart = refl

abbrev logging : Env ℕ (List (Item ℕ))
logging = record {
  clock = λ k. 50 + k;
  call = λ item c. returned (record c { world = item ∷ c.world }) tt;
  reactor_run_one = λ t c. returned c 0;
}

-- Two handlers are queued, and the context is stopped.
abbrev stopped_with_two : Context ℕ (List (Item ℕ))
unfolding stop
stopped_with_two = stop (record (new {W = List (Item ℕ)} []) {
  handlers = record { items = posted 1 ∷ posted 2 ∷ []; is_stopped = false };
})

run_each_calls_all_example :
    (k : ℕ) × (run_each logging 4 stopped_with_two
      ≡ returned
          (record stopped_with_two {
            handlers = record stopped_with_two.handlers { items = [] };
            world = call_all (λ item w. item ∷ w) stopped_with_two.handlers.items [];
            reads = k;
            is_current = false;
          })
          2)
unfolding stop WorkQueue.stop
run_each_calls_all_example =
    run_each_calls_all logging (λ item w. item ∷ w) (λ item c. refl) (λ t c. refl) 4
      stopped_with_two refl (omega arith)
