-- ===== src/Tests/Threads.antt =====
-- Runs of a strand, of blocked consumers and of work guards.
use svarog_io.Common.{
  ℕ, ◌<◌, ◌≡◌, ◌≢◌, ◌↔◌, ◌⊎◌, refl, true, false, List, [], ◌∷◌, ◌++◌, arith, ◌≤◌,
}
use svarog_io.WorkQueue.{push_item, try_pop, pop_ready}
use svarog_io.WorkQueue.Blocking
use svarog_io.WorkQueue.Blocking.Wakeups.{push_never_lost, stop_can_be_lost}
use svarog_io.Strand.{
  idle, handling, System, post_push, post_claim, post_submit, post_rejected, enter, store_id,
  pop_handler, pop_nothing, handler_end, clear_id, release, leave_empty, pick, here, later, Reach,
  Inside, max_recursion_depth, pushed,
}
use svarog_io.Strand.Safety.{
  handlers_never_overlap, none_left_behind, started_in_order, running_in_this_thread_exact,
  dispatch_depth_bounded,
}
use svarog_io.Strand.Stuck.{stuck_once_lost}
use svarog_io.WorkGuard
use svarog_io.WorkGuard.{constructs, resets, moves, assigns}
use svarog_io.WorkGuard.Counting.{work_count_exact, owners}

record Run : Type 0 where
  last : System ℕ
  reach : Reach 2 last

-- Thread 0 posts handler 7, and takes the flag.
abbrev posted : Run
unfolding push_item
posted = record {
  last = _;
  reach =
      later (later here (pick 0 (omega arith) (post_push 7 refl refl)))
        (pick 0 (omega arith) (post_claim refl refl));
}

-- Thread 1 runs it.
abbrev in_handler : Run
unfolding push_item try_pop
in_handler = record {
  last = _;
  reach =
      later
        (later
          (later (later posted.reach (pick 0 (omega arith) (post_submit refl)))
            (pick 1 (omega arith) (enter refl refl)))
          (pick 1 (omega arith) (store_id refl)))
        (pick 1 (omega arith) (pop_handler refl refl));
}

abbrev finished : Run
unfolding push_item try_pop
finished = record {
  last = _;
  reach =
      later
        (later
          (later
            (later (later in_handler.reach (pick 1 (omega arith) (handler_end refl refl refl)))
              (pick 1 (omega arith) (pop_nothing refl refl)))
            (pick 1 (omega arith) (clear_id refl)))
          (pick 1 (omega arith) (release refl)))
        (pick 1 (omega arith) (leave_empty refl refl));
}

handlers_never_overlap_example : ◌≡◌ {A = ℕ} 1 1
unfolding push_item try_pop
handlers_never_overlap_example = handlers_never_overlap 1 1 in_handler.reach refl refl

started_in_order_example : (7 ∷ []) ≡ in_handler.last.started ++ in_handler.last.queue.items
unfolding push_item try_pop
started_in_order_example = started_in_order in_handler.reach

finished_idle : (i : ℕ) → finished.last.threads i ≡ idle
unfolding push_item try_pop
finished_idle i = ground arith

none_left_behind_example : finished.last.queued ≡ finished.last.started
unfolding push_item try_pop
none_left_behind_example = none_left_behind finished.reach finished_idle refl refl

running_in_this_thread_exact_example :
    Inside in_handler.last 1 ↔ ((in_handler.last.threads 1).drain ≡ handling)
unfolding push_item try_pop
running_in_this_thread_exact_example = running_in_this_thread_exact 1 in_handler.reach refl

dispatch_depth_bounded_example :
    ((in_handler.last.threads 1).depth ≤ max_recursion_depth)
    × (((in_handler.last.threads 1).drain ≡ handling) ⊎ ((in_handler.last.threads 1).depth ≡ 0))
dispatch_depth_bounded_example = dispatch_depth_bounded 1 in_handler.reach

-- The executor throws the call away, and another handler is posted.
abbrev rejected : Run
unfolding push_item
rejected = record {
  last = _;
  reach = later posted.reach (pick 0 (omega arith) (post_rejected refl));
}

stuck_once_lost_example : (pushed rejected.last 1 8).started ≡ rejected.last.started
unfolding push_item
stuck_once_lost_example =
    stuck_once_lost rejected.reach (omega arith)
      (later here (pick 1 (omega arith) (post_push 8 refl refl)))

-- Consumers 0 and 1 sleep, then an item is pushed and consumer 1 is woken.
record Consumers : Type 0 where
  last : Blocking.System ℕ
  reach : Blocking.Reach 2 last

abbrev one_woken : Consumers
unfolding push_item pop_ready
one_woken = record {
  last = _;
  reach =
      Blocking.later
        (Blocking.later
          (Blocking.later
            (Blocking.later
              (Blocking.later Blocking.at_start (Blocking.test 0 (omega arith) refl refl refl))
              (Blocking.sleep 0 (omega arith) refl))
            (Blocking.test 1 (omega arith) refl refl refl))
          (Blocking.sleep 1 (omega arith) refl))
        (Blocking.push_wake 1 5 (omega arith) refl refl refl);
}

push_never_lost_example : (j : ℕ) × (j < 2) × (one_woken.last.pc j ≡ Blocking.woken)
unfolding push_item pop_ready
push_never_lost_example = push_never_lost one_woken.reach 0 refl refl (λ e. cc)

stop_can_be_lost_example :
    (s : Blocking.System ℕ) × Blocking.Reach 3 s
    × (s.queue.is_stopped ≡ true)
    × (s.notify_due ≡ false)
    × (s.pc 1 ≡ Blocking.asleep)
    × ((j : ℕ) → s.pc j ≢ Blocking.woken)
stop_can_be_lost_example = stop_can_be_lost 3 1 (omega arith)

abbrev guard_history : List WorkGuard.Op
guard_history =
    constructs 4 ∷ constructs 4 ∷ constructs 6 ∷ moves 0 ∷ assigns 1 2 ∷ assigns 3 3 ∷ resets 0 ∷ []

work_count_exact_example :
    (WorkGuard.run WorkGuard.start guard_history).work_count 4
    ≡ owners 4 (WorkGuard.run WorkGuard.start guard_history)
unfolding WorkGuard.run
work_count_exact_example = work_count_exact guard_history 4 (omega arith) (omega arith)

work_counts :
    ((WorkGuard.run WorkGuard.start guard_history).work_count 4 ≡ 1)
    × ((WorkGuard.run WorkGuard.start guard_history).work_count 6 ≡ 1)
unfolding WorkGuard.run
work_counts = (refl, refl)
