-- ===== src/Tests/Queues.antt =====
-- Histories of a work queue.
use svarog_io.Common.{ℕ, ◌≡◌, refl, true, false, List, [], ◌∷◌, ◌++◌, some, none, ◌==◌, arith}
use svarog_io.Contracts.{passed, terminated, debug_build, release_build}
use svarog_io.WorkQueue.{WorkQueue, unexpected, stopped, empty, new, push, push_item, pop, pop_or}
use svarog_io.Common.Family.{update}
use svarog_io.WorkQueue.Blocking.{System, outside, Reach, at_start, later, start, push_none, take}
use svarog_io.WorkQueue.Blocking.Linear.{put_by, got_by, history_linear}
use svarog_io.WorkQueue.Blocking.Linear
use svarog_io.WorkQueue.Order.{
  Call, pushes, pops, try_pops, stops, run, all_accepted, all_removed, run-fifo, run-stopped,
}

abbrev history : List (Call ℕ)
history = pushes 1 ∷ pushes 2 ∷ pops ∷ pushes 3 ∷ stops ∷ pushes 4 ∷ try_pops ∷ pops ∷ []

run-fifo_example :
    [] ++ all_accepted (new {A = ℕ}) history ≡ all_removed new history ++ (run new history).items
run-fifo_example = run-fifo new history

history_result :
    (all_accepted (new {A = ℕ}) history ≡ 1 ∷ 2 ∷ 3 ∷ [])
    × (all_removed (new {A = ℕ}) history ≡ 1 ∷ 2 ∷ [])
unfolding all_accepted all_removed
history_result = (refl, refl)

abbrev stopped_queue : WorkQueue ℕ
stopped_queue = record { items = 8 ∷ 9 ∷ []; is_stopped = true }

run-stopped_example :
    ((run stopped_queue (try_pops ∷ pushes 1 ∷ [])).is_stopped ≡ true)
    × (all_accepted stopped_queue (try_pops ∷ pushes 1 ∷ []) ≡ [])
    × (pop (run stopped_queue (try_pops ∷ pushes 1 ∷ []))
        ≡ some (run stopped_queue (try_pops ∷ pushes 1 ∷ []), unexpected stopped))
run-stopped_example = run-stopped stopped_queue (try_pops ∷ pushes 1 ∷ []) refl

-- An item that is null ends the process in a debug build only.
null_item :
    (push debug_build (λ a. a == 0) 0 (new {A = ℕ}) ≡ terminated)
    × (push release_build (λ a. a == 0) 0 (new {A = ℕ})
        ≡ passed (record { items = 0 ∷ []; is_stopped = false }, true))
unfolding push
null_item = (refl, refl)

-- What the two kinds of `pop` say of an empty queue.
empty_queue :
    (pop (new {A = ℕ}) ≡ none) × (pop_or true (new {A = ℕ}) ≡ some (new, unexpected empty))
unfolding pop pop_or
empty_queue = (refl, refl)

-- A producer puts 7 into a new queue, and the only consumer takes it.
abbrev after_seven : System ℕ
after_seven = record (start {A = ℕ}) { pc = update (start {A = ℕ}).pc 0 outside }

taken_seven : Reach 1 after_seven
unfolding push_item pop
taken_seven =
    later (later at_start (push_none 7 (λ j e. ground (arith, e)) refl refl))
      (take 0 (omega arith) refl refl refl)

history_linear_example :
    (run new (Linear.history taken_seven) ≡ new)
    × (all_accepted new (Linear.history taken_seven) ≡ put_by taken_seven)
    × (all_removed new (Linear.history taken_seven) ≡ got_by taken_seven)
    × (put_by taken_seven ≡ got_by taken_seven ++ [])
history_linear_example = history_linear taken_seven
