-- ===== src/Tests/Contexts.antt =====
-- Contexts whose handlers are numbers and whose world is the list of handlers called.
use svarog_io.Common.{
  ℕ, ◌+◌, ◌≤◌, ◌<◌, ◌≡◌, ◌⊎◌, refl, true, false, List, [], ◌∷◌, ◌++◌, arith, length,
}
use svarog_io.Contracts.{debug_build}
use svarog_io.Outcome.{returned, threw}
use svarog_io.WorkQueue
use svarog_io.TimerQueue.{TimerEntry, TimerQueue, has_expired, size}
use svarog_io.TimerQueue.Invariant.{Call, adds}
use svarog_io.TimerQueue.Invariant
use svarog_io.IoContext.{
  Context, Env, Item, posted, new, process_timers, calculate_timeout, run, run_one, poll, stop,
  restart, running_in_this_thread, dispatch, max_wait,
}
use svarog_io.IoContext.Timeouts.{calculate_timeout_bounded}
use svarog_io.IoContext.Expiring.{process_timers_moves, accepted_fired, handlers_of, AllDue}
use svarog_io.IoContext.Draining.{call_all, run_calls_all, poll_calls_all}
use svarog_io.IoContext.Restarting.{post_all, restart_stays_dead, throw_leaves_current}

abbrev log_call : Item ℕ → List (Item ℕ) → List (Item ℕ)
log_call item w = w ++ item ∷ []

-- Time 50 at the first reading, and one more at each.
abbrev plain : Env ℕ (List (Item ℕ))
plain = record {
  clock = λ k. 50 + k;
  call = λ item c. returned (record c { world = log_call item c.world }) tt;
  reactor_run_one = λ t c. returned c 0;
}

abbrev throwing : Env ℕ (List (Item ℕ))
throwing = record plain { call = λ item c. threw c }

abbrev queued : Context ℕ (List (Item ℕ))
queued = record (new {W = List (Item ℕ)} []) {
  handlers = record { items = posted 1 ∷ posted 2 ∷ []; is_stopped = false };
}

-- Two timers, at 30 and 40.
abbrev with_timers : Context ℕ (List (Item ℕ))
unfolding Invariant.run
with_timers = record queued {
  timers = Invariant.run svarog_io.TimerQueue.new (adds 30 7 ∷ adds 40 8 ∷ []);
  work_count = 1;
}

calculate_timeout_bounded_example :
    (c' : Context ℕ (List (Item ℕ))) × (t : ℕ) × (calculate_timeout plain with_timers
      ≡ returned c' t)
    × (c' ≡ record with_timers { reads = c'.reads })
    × (t ≤ max_wait)
    × ((t ≡ 0) ⊎ ((WorkQueue.is_idle with_timers.handlers ≡ true) × (0 < with_timers.work_count)))
calculate_timeout_bounded_example = calculate_timeout_bounded plain with_timers

clock_grows : (i j : ℕ) → i ≤ j → plain.clock i ≤ plain.clock j
clock_grows i j h = omega arith

process_timers_moves_example :
    (c' : Context ℕ (List (Item ℕ))) × (taken : List (TimerEntry ℕ)) × (process_timers plain 3
        with_timers
      ≡ returned c' tt)
    × (has_expired 50 c'.timers ≡ false)
    × (with_timers.timers.timers ≡ taken ++ c'.timers.timers)
    × AllDue plain.clock 0 c'.reads taken
    × (0 ≤ c'.reads)
    × (c'.handlers.items ≡ with_timers.handlers.items ++ accepted_fired false (handlers_of taken))
    × (c'.handlers.is_stopped ≡ false)
    × (c' ≡ record with_timers { reads = c'.reads; timers = c'.timers; handlers = c'.handlers })
unfolding Invariant.run size
process_timers_moves_example = process_timers_moves plain 3 with_timers clock_grows (omega arith)

run_calls_all_example :
    (c' : Context ℕ (List (Item ℕ))) × (run plain 4 queued ≡ returned c' tt)
    × (c'.handlers.items ≡ [])
    × (c'.world ≡ call_all log_call (posted 1 ∷ posted 2 ∷ []) [])
    × (c'.is_current ≡ false)
run_calls_all_example =
    run_calls_all plain log_call (λ item c. refl) (λ t c. refl) 4 queued refl refl refl
      (omega arith)

poll_calls_all_example :
    (c' : Context ℕ (List (Item ℕ))) × (taken : List (TimerEntry ℕ)) × (let items =
        with_timers.handlers.items ++ accepted_fired false (handlers_of taken) in
      (poll plain 5 with_timers ≡ returned c' (length items))
      × (c'.world ≡ call_all log_call items []))
    × (with_timers.timers.timers ≡ taken ++ c'.timers.timers)
    × AllDue plain.clock 0 c'.reads taken
    × (has_expired 50 c'.timers ≡ false)
    × (c'.handlers.items ≡ [])
    × (c'.is_current ≡ false)
unfolding Invariant.run size
poll_calls_all_example =
    poll_calls_all plain log_call (λ item c. refl) (λ t c. refl) 5 with_timers clock_grows
      (omega arith)

restart_stays_dead_example :
    let c' = post_all (3 ∷ 4 ∷ []) (restart (stop queued)) in
    (c'.is_stopped ≡ false)
    × (c'.handlers.items ≡ [])
    × (run plain 2 c' ≡ returned (record c' { is_current = false }) tt)
restart_stays_dead_example = restart_stays_dead plain 2 (3 ∷ 4 ∷ []) queued refl refl (omega arith)

throw_leaves_current_example :
    (c' : Context ℕ (List (Item ℕ))) × (run_one throwing 2 queued ≡ threw c')
    × (running_in_this_thread c' ≡ true)
    × (dispatch throwing debug_build 9 c' ≡ throwing.call (posted 9) c')
throw_leaves_current_example =
    throw_leaves_current throwing 2 debug_build 9 queued (posted 1) (posted 2 ∷ []) (λ d. refl) refl
      refl refl (omega arith)
