-- ===== src/Tests/Timing.antt =====
-- Timer queues and timers.
use svarog_io.Common.{
  ℕ, ◌+◌, ◌≤◌, ◌<◌, ◌≡◌, ◌↔◌, refl, true, false, List, [], ◌∷◌, some, none, arith, ◌==◌,
  if◌then◌else◌, leb,
}
use svarog_io.TimerQueue.{
  TimerQueue, new, add_timer, cancel_timer, has_expired, get_next_expiry, pop_expired,
  process_expired, size,
}
use svarog_io.TimerQueue.Invariant.{Inv, Call, adds, run, run-new-Inv, deadline_of}
use svarog_io.TimerQueue.Ordering.{
  Pending, next_expiry_is_latest, has_expired_iff_all_due, due_timer_held_up, pop_expired_descends,
}
use svarog_io.TimerQueue.Lifecycle.{is_some, add-cancel, add_timer_drops, cancel_timer_exact}
use svarog_io.TimerQueue.Contract.{Behaves}
use svarog_io.TimerQueue.Contract.Refinement.{view, observed, run-new-Behaves}
use svarog_io.TimerQueue.Expiry.{process_expired_returns, process_expired_loses}
use svarog_io.Timers.Steady.{SteadyTimer, cancel, async_wait, move_assign}
use svarog_io.Timers.System.{SystemTimer, to_steady}
use svarog_io.Timers.System
use svarog_io.Timers.Waiting.{
  cancel_exact, async_wait_replaces, move_assign_replaces, to_steady_agrees,
}

-- Timer 1 at 30, timer 2 at 10, timer 3 at 20, whose handlers are numbers.
abbrev history : List (Call ℕ)
history = adds 30 100 ∷ adds 10 200 ∷ adds 20 300 ∷ []

abbrev three : TimerQueue ℕ
unfolding run
three = run new history

run-new-Inv_example : Inv (run new history)
run-new-Inv_example = run-new-Inv history (omega arith)

run-new-Behaves_example : Behaves (view new) (observed new history) (view (run new history))
run-new-Behaves_example = run-new-Behaves history (omega arith)

three-Inv : Inv three
unfolding run
three-Inv = run-new-Inv history (omega arith)

next_expiry_is_latest_example :
    (j : ℕ) × (e : ℕ) × Pending three j e × (get_next_expiry three ≡ some e) × (10 ≤ e)
unfolding run deadline_of
next_expiry_is_latest_example = next_expiry_is_latest three 2 10 three-Inv refl

has_expired_iff_all_due_example :
    (has_expired 25 three ≡ true) ↔ ((j e : ℕ) → Pending three j e → e ≤ 25)
unfolding run deadline_of
has_expired_iff_all_due_example = has_expired_iff_all_due three 25 2 10 three-Inv refl

due_timer_held_up_example :
    (has_expired 25 three ≡ false)
    × (pop_expired 25 three ≡ (three, none))
    × Pending (pop_expired 25 three).0 2 10
unfolding run deadline_of
due_timer_held_up_example =
    due_timer_held_up three 25 2 10 1 30 three-Inv refl (omega arith) refl (omega arith)

pop_expired_descends_example : (e : ℕ) × (get_next_expiry three ≡ some e) × (e ≤ 40) × (20 < e)
unfolding run deadline_of pop_expired
pop_expired_descends_example = pop_expired_descends three 40 3 20 {h = 100} three-Inv refl refl

add-cancel_example :
    cancel_timer (add_timer 15 400 three).1 (add_timer 15 400 three).0
    ≡ (record three { next_id = three.next_id + 1 }, true)
unfolding run
add-cancel_example = add-cancel 15 400 three three-Inv (omega arith) (omega arith)

add_timer_drops_example :
    ((add_timer 20 400 three).0.timers ≡ three.timers)
    × (cancel_timer (add_timer 20 400 three).1 (add_timer 20 400 three).0
        ≡ ((add_timer 20 400 three).0, false))
unfolding run deadline_of
add_timer_drops_example = add_timer_drops 20 400 three 3 three-Inv refl

cancel_timer_exact_example :
    ((cancel_timer 3 three).1 ≡ is_some (deadline_of 3 three.timers))
    × ((j : ℕ)
        → deadline_of j (cancel_timer 3 three).0.timers
          ≡ (if 3 == j then none else deadline_of j three.timers))
cancel_timer_exact_example = cancel_timer_exact 3 three three-Inv

-- A clock that moves on by 2 with each reading.
abbrev slow_clock : ℕ → ℕ
slow_clock k = 40 + (k + k)

process_expired_returns_example :
    (q' : TimerQueue ℕ) × (count : ℕ) × (process_expired 4 slow_clock (λ h q. q) 90 three
      ≡ some (q', count))
    × (count + size q' ≤ size three)
unfolding run size
process_expired_returns_example =
    process_expired_returns 4 slow_clock (λ h q. q) 90 three (λ h q. omega arith) (omega arith)

process_expired_loses_example :
    (q' : TimerQueue ℕ) × (process_expired 1 slow_clock (λ h q. q) 41 three ≡ some (q', 0))
    × (size q' + 1 ≡ size three)
unfolding run has_expired
process_expired_loses_example =
    process_expired_loses 0 slow_clock (λ h q. q) 41 three refl (omega arith)

-- The timer that holds id 3, and one that has no wait.
abbrev waiting : SteadyTimer
waiting = record { expiry = 20; timer_id = 3 }

abbrev idle_timer : SteadyTimer
idle_timer = record { expiry = 50; timer_id = 0 }

cancel_exact_example :
    let (t', q', n) = cancel waiting three in
    (n ≡ (if is_some (deadline_of 3 three.timers) then 1 else 0))
    × ((j : ℕ) → deadline_of j q'.timers ≡ (if 3 == j then none else deadline_of j three.timers))
    × (cancel t' q' ≡ (t', q', 0))
cancel_exact_example = cancel_exact waiting three three-Inv

async_wait_replaces_example :
    let (t', q') = async_wait 500 waiting three in
    (t'.timer_id ≡ three.next_id)
    × (t'.expiry ≡ 20)
    × (deadline_of 3 q'.timers ≡ (if 3 == 3 then none else deadline_of 3 three.timers))
unfolding run
async_wait_replaces_example =
    async_wait_replaces 500 waiting three 3 three-Inv (λ e. omega (arith, e))

move_assign_replaces_example :
    let (t', other', q') = move_assign false waiting idle_timer three in
    (t' ≡ idle_timer)
    × ((j : ℕ) → deadline_of j q'.timers ≡ (if 3 == j then none else deadline_of j three.timers))
    × (cancel other' q' ≡ (other', q', 0))
    × (move_assign true waiting idle_timer three ≡ (waiting, idle_timer, three))
move_assign_replaces_example = move_assign_replaces waiting idle_timer three three-Inv

to_steady_agrees_example :
    leb (to_steady 1000 70 1030) (70 + 40)
    ≡ System.expired (1000 + 40) (record { expiry = 1030; timer_id = 0 })
to_steady_agrees_example =
    to_steady_agrees 1000 70 40 (record { expiry = 1030; timer_id = 0 }) (omega arith) (omega arith)
      (omega arith)

-- The handlers come out from the latest deadline to the earliest.
order_of_firing :
    ((pop_expired 40 three).1 ≡ some 100) × ((pop_expired 40 (pop_expired 40 three).0).1 ≡ some 300)
unfolding run pop_expired
order_of_firing = (refl, refl)
