-- ===== src/IoContext/Threads.antt =====
-- svarog/source/svarog/io/io_context.cpp and include/svarog/io/io_context.hpp with any number of
-- threads inside `run` of one context, its timers among it. Each access to shared state (the flag,
-- the work count, a call of the handler queue or of the timer queue, a reading of the clock) is one
-- step. Not modelled: descriptors, and a handler that calls `run` or `poll` itself. What a refused post leaves as it was is no step.
mod Leaving
pub mod Counting
mod Conserved
mod Kept
pub mod Serving
pub mod Overlooked
use svarog_io.Common.{
  ℕ, suc, ◌+◌, ◌-◌, ◌<◌, ◌≡◌, ◌≢◌, Bool, true, false, List, [], ◌∷◌, ◌++◌, map, Option, none, some,
  ◌==◌, if◌then◌else◌,
}
use svarog_io.Common.Family.{update}
use svarog_io.Common.Maps.{find}
use svarog_io.WorkQueue.{WorkQueue, value, push_item, try_pop}
use svarog_io.WorkQueue
use svarog_io.TimerQueue.{
  TimerEntry, TimerQueue, emplace, add_timer, cancel_timer, has_expired, pop_expired,
}
use svarog_io.TimerQueue
use svarog_io.IoContext.{Item, posted, fired}

-- Where a thread stands in `run`: at `stopped()`; at the three reads of `has_pending_work`; in
-- `process_timers` at its reading of the clock, at `has_expired` with that reading, at
-- `pop_expired`, and at the push of the handler it got; before and in the loop over handlers, and
-- inside a handler; or out of `run`, by the missing work, by `stop`, or by an exception.
pub data Pc {ℓ} (H : Type ℓ) : Type ℓ where
  run_test queue_test count_test timers_test : Pc H
  reading : Pc H
  expired_test popping : ℕ → Pc H
  pushing : ℕ → H → Pc H
  waiting draining calling : Pc H
  left stopped_out thrown_out : Pc H

-- The thread has come out of `run`.
abbrev pub is_out {ℓ} : {H : Type ℓ} → Pc H → Bool
is_out left = true
is_out stopped_out = true
is_out thrown_out = true
is_out _ = false

-- The context, the clock, and the threads. The rest is history: the handlers that the queue has
-- accepted and those taken from it; the handlers of the timers that were entered, taken out by
-- `cancel_timer`, and thrown away because the queue refused them; how many handlers threads outside
-- `run` have posted; and how often a thread outside has posted, added a timer or made a guard while
-- no guard was held; how many calls of `stop` and of `restart` are between their two accesses; and
-- the handlers that `restart` has destroyed.
pub record Crowd {ℓ} (H : Type ℓ) : Type ℓ where
  pub is_stopped : Bool
  pub handlers : WorkQueue (Item H)
  pub work_count : ℕ
  pub timers : TimerQueue H
  pub clock : ℕ
  pub pc : ℕ → Pc H
  pub accepted : List (Item H)
  pub started : List (Item H)
  pub entered : List H
  pub withdrawn : List H
  pub dropped : List H
  pub guests : ℕ
  pub unguarded : ℕ
  pub stopping : ℕ
  pub restarting : ℕ
  pub discarded : List (Item H)

-- The timer handlers in a queue of handlers.
abbrev pub fired_in {ℓ} : {H : Type ℓ} → List (Item H) → List H
fired_in [] = []
fired_in (posted h ∷ xs) = fired_in xs
fired_in (fired h ∷ xs) = h ∷ fired_in xs

-- The handlers of the pending timers.
abbrev pub pending {ℓ} : {H : Type ℓ} → TimerQueue H → List H
pending q = map (λ e. e.handler) q.timers

module _ {ℓ} {H : Type ℓ} where
  -- Threads about to enter `run` on a context that is not stopped.
  abbrev pub start : List (Item H) → ℕ → TimerQueue H → ℕ → Crowd H
  start items work_count timers clock = record {
    is_stopped = false;
    handlers = record { items = items; is_stopped = false };
    work_count = work_count;
    timers = timers;
    clock = clock;
    pc = λ i. run_test;
    accepted = items;
    started = [];
    entered = pending timers ++ fired_in items;
    withdrawn = [];
    dropped = [];
    guests = 0;
    unguarded = 0;
    stopping = 0;
    restarting = 0;
    discarded = [];
  }

  -- Thread `i` goes on at `p`.
  abbrev pub goes : Crowd H → ℕ → Pc H → Crowd H
  goes s i p = record s { pc = update s.pc i p }

  abbrev pub accepts : Item H → Crowd H → Crowd H
  accepts x s = record s { handlers = (push_item x s.handlers).0; accepted = s.accepted ++ x ∷ [] }

  -- The handler of the node that `erase_node` erases.
  unfoldable pub handler_at : ℕ → List (TimerEntry H) → List H
  handler_at d [] = []
  handler_at d (x ∷ xs) = if x.deadline == d then x.handler ∷ [] else handler_at d xs

  -- What `cancel_timer` takes out.
  unfoldable pub withdrawn_by : ℕ → TimerQueue H → List H
  unfolding handler_at find
  withdrawn_by id q = elim (find id q.id_to_iterator) [
    | none ↦ []
    | some node ↦ handler_at node q.timers
  ]

  -- What `add_timer` enters: nothing if the set has the deadline already.
  unfoldable pub entered_by : ℕ → H → TimerQueue H → List H
  unfolding emplace
  entered_by deadline h q =
      let new_entry : TimerEntry H = record { id = q.next_id; deadline = deadline; handler = h } in
      if (emplace new_entry q.timers).1 then h ∷ [] else []

  -- `add_timer` by anyone.
  abbrev pub adds : ℕ → H → Crowd H → Crowd H
  adds deadline h s = record s {
    timers = (add_timer deadline h s.timers).0;
    entered = s.entered ++ entered_by deadline h s.timers;
  }

  -- A thread outside comes to post, to add a timer or to make a guard.
  abbrev pub visited : Crowd H → Crowd H
  visited s = record s { unguarded = if s.work_count == 0 then suc s.unguarded else s.unguarded }

  -- The steps of thread `i` inside `run`.
  pub data Move (s : Crowd H) (i : ℕ) : Crowd H → Type ℓ where
    -- The thread calls `run` again.
    run_again : is_out (s.pc i) ≡ true → Move s i (goes s i run_test)
    run_stopped : s.pc i ≡ run_test → s.is_stopped ≡ true → Move s i (goes s i stopped_out)
    run_on : s.pc i ≡ run_test → s.is_stopped ≡ false → Move s i (goes s i queue_test)
    has_handlers : s.pc i ≡ queue_test → s.handlers.items ≢ [] → Move s i (goes s i reading)
    no_handlers : s.pc i ≡ queue_test → s.handlers.items ≡ [] → Move s i (goes s i count_test)
    has_guards : s.pc i ≡ count_test → 0 < s.work_count → Move s i (goes s i reading)
    no_guards : s.pc i ≡ count_test → s.work_count ≡ 0 → Move s i (goes s i timers_test)
    has_timers :
        s.pc i ≡ timers_test → TimerQueue.is_idle s.timers ≡ false → Move s i (goes s i reading)
    no_timers : s.pc i ≡ timers_test → TimerQueue.is_idle s.timers ≡ true → Move s i (goes s i left)
    read_clock : s.pc i ≡ reading → Move s i (goes s i (expired_test s.clock))
    expired :
        {now : ℕ}
        → s.pc i ≡ expired_test now
        → has_expired now s.timers ≡ true
        → Move s i (goes s i (popping now))
    none_expired :
        {now : ℕ}
        → s.pc i ≡ expired_test now
        → has_expired now s.timers ≡ false
        → Move s i (goes s i waiting)
    pop_timer :
        {now : ℕ} {h : H}
        → s.pc i ≡ popping now
        → (pop_expired s.clock s.timers).1 ≡ some h
        → Move s i (record s {
          timers = (pop_expired s.clock s.timers).0;
          pc = update s.pc i (pushing now h);
        })
    pop_none :
        {now : ℕ}
        → s.pc i ≡ popping now
        → (pop_expired s.clock s.timers).1 ≡ none
        → Move s i (goes s i (expired_test now))
    push_fired :
        {now : ℕ} {h : H}
        → s.pc i ≡ pushing now h
        → (push_item (fired h) s.handlers).1 ≡ true
        → Move s i (accepts (fired h) (goes s i (expired_test now)))
    drop_fired :
        {now : ℕ} {h : H}
        → s.pc i ≡ pushing now h
        → (push_item (fired h) s.handlers).1 ≡ false
        → Move s i
            (record s { pc = update s.pc i (expired_test now); dropped = s.dropped ++ h ∷ [] })
    -- `calculate_timeout` and `run_one` of a reactor without descriptors change nothing.
    wait_over : s.pc i ≡ waiting → Move s i (goes s i draining)
    take :
        {q : WorkQueue (Item H)} {x : Item H}
        → s.pc i ≡ draining
        → try_pop s.handlers ≡ (q, value x)
        → Move s i
            (record s { handlers = q; pc = update s.pc i calling; started = s.started ++ x ∷ [] })
    take_none : s.pc i ≡ draining → s.handlers.items ≡ [] → Move s i (goes s i run_test)
    handler_posts :
        (h : H)
        → s.pc i ≡ calling
        → (push_item (posted h) s.handlers).1 ≡ true
        → Move s i (accepts (posted h) s)
    handler_adds : (deadline : ℕ) (h : H) → s.pc i ≡ calling → Move s i (adds deadline h s)
    handler_guards : s.pc i ≡ calling → Move s i (record s { work_count = suc s.work_count })
    handler_returns : s.pc i ≡ calling → Move s i (goes s i draining)
    handler_throws : s.pc i ≡ calling → Move s i (goes s i thrown_out)

  -- One of the `n` threads moves, or a thread outside, or somebody inside a handler or outside, does
  -- what it may do at any time.
  pub data Step (n : ℕ) (s : Crowd H) : Crowd H → Type ℓ where
    work : {t : Crowd H} (i : ℕ) → i < n → Move s i t → Step n s t
    guest_posts :
        (h : H)
        → (push_item (posted h) s.handlers).1 ≡ true
        → Step n s (accepts (posted h) (record (visited s) { guests = suc s.guests }))
    guest_adds : (deadline : ℕ) (h : H) → Step n s (adds deadline h (visited s))
    guest_guards : Step n s (record (visited s) { work_count = suc s.work_count })
    release_guard : 0 < s.work_count → Step n s (record s { work_count = s.work_count - 1 })
    cancel :
        (id : ℕ)
        → Step n s (record s {
          timers = (cancel_timer id s.timers).0;
          withdrawn = s.withdrawn ++ withdrawn_by id s.timers;
        })
    -- The two steps of `stop`
    flag_stop : Step n s (record s { is_stopped = true; stopping = suc s.stopping })
    stop_queue :
        0 < s.stopping
        → Step n s (record s { handlers = WorkQueue.stop s.handlers; stopping = s.stopping - 1 })
    -- The two steps of `restart`
    clear_queue : Step n s (record s {
      handlers = WorkQueue.clear s.handlers;
      discarded = s.discarded ++ s.handlers.items;
      restarting = suc s.restarting;
    })
    flag_restart :
        0 < s.restarting → Step n s (record s { is_stopped = false; restarting = s.restarting - 1 })
    tick : (k : ℕ) → Step n s (record s { clock = s.clock + k })

  pub data Steps (n : ℕ) (s : Crowd H) : Crowd H → Type ℓ where
    here : Steps n s s
    later : {t u : Crowd H} → Steps n s t → Step n t u → Steps n s u
