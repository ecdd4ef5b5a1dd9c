-- ===== src/Examples/Workers.antt =====
-- Example 3 of examples/io_context/main.cpp: tasks that only count are posted to a context, and then
-- several threads call `run`, which `main` joins. A task is known by its number; what it prints and
-- its pause are left out.
use svarog_io.Common.{
  ℕ, zero, suc, ◌<◌, ◌≡◌, refl, sym, ap, ◌∙◌, Bool, true, false, List, [], ◌∷◌, ◌++◌, arith, length,
  length-append,
}
use svarog_io.WorkQueue.{try_pop}
use svarog_io.TimerQueue
use svarog_io.TimerQueue.{pop_expired}
use svarog_io.IoContext.{Item, posted}
use svarog_io.IoContext.Threads.{
  Pc, pushing, left, Crowd, start, Move, pop_timer, push_fired, drop_fired, take, handler_posts,
  handler_adds, handler_guards, handler_throws, run_again, work, Steps, here, later,
}
use svarog_io.IoContext.Threads.Serving.{run_leaves_none}

-- The tasks, in the order in which the loop posts them.
abbrev pub tasks : ℕ → List (Item ℕ)
tasks zero = []
tasks (suc k) = tasks k ++ posted k ∷ []

-- A step in which a task does nothing to the context, and no worker calls `run` again.
abbrev pub only_counts : {s : Crowd ℕ} {i : ℕ} {t : Crowd ℕ} → Move s i t → Bool
only_counts (handler_posts h e a) = false
only_counts (handler_adds d h e) = false
only_counts (handler_guards e) = false
only_counts (handler_throws e) = false
only_counts (run_again e) = false
only_counts _ = true

-- The workers, with nobody else at the context.
pub data Working (n : ℕ) (s : Crowd ℕ) : Crowd ℕ → Type 0 where
  idle : Working n s s
  goes_on :
      {t u : Crowd ℕ} (i : ℕ)
      → i < n
      → Working n s t
      → (m : Move t i u) → only_counts m ≡ true
      → Working n s u

abbrev pub ready : ℕ → Crowd ℕ
ready num_tasks = start (tasks num_tasks) 0 TimerQueue.new 0

Working-Steps : {n : ℕ} {s t : Crowd ℕ} → Working n s t → Steps n s t
Working-Steps idle = here
Working-Steps (goes_on i lt r m p) = later (Working-Steps r) (work i lt m)

abbrev carries : Pc ℕ → Bool
carries (pushing now h) = true
carries _ = false

-- What the workers leave as it is.
record Untouched (num_tasks : ℕ) (s : Crowd ℕ) : Type 0 where
  accepted : s.accepted ≡ tasks num_tasks
  no_guest : s.guests ≡ 0
  no_visit : s.unguarded ≡ 0
  no_restart : s.discarded ≡ []
  opened : s.handlers.is_stopped ≡ false
  no_timer : s.timers ≡ TimerQueue.new
  none_carried : (i : ℕ) → carries (s.pc i) ≡ false

Move-Untouched :
    {k : ℕ} {s : Crowd ℕ} (i : ℕ) {t : Crowd ℕ}
    → Untouched k s
    → (m : Move s i t) → only_counts m ≡ true
    → Untouched k t
unfolding try_pop pop_expired
Move-Untouched i v (pop_timer e a) p = absurd (ground (arith, a, v.no_timer))
Move-Untouched i v (push_fired e a) p = absurd (ground (arith, e, v.none_carried i))
Move-Untouched i v (drop_fired e a) p = absurd (ground (arith, e, v.none_carried i))
Move-Untouched i v (handler_posts h e a) p = absurd (ground (arith, p))
Move-Untouched i v (handler_adds d h e) p = absurd (ground (arith, p))
Move-Untouched i v (handler_guards e) p = absurd (ground (arith, p))
Move-Untouched i v (handler_throws e) p = absurd (ground (arith, p))
Move-Untouched i v (run_again e) p = absurd (ground (arith, p))
Move-Untouched i v (take e a) p = record {
  accepted = v.accepted;
  no_guest = v.no_guest;
  no_visit = v.no_visit;
  no_restart = v.no_restart;
  opened = ground (arith, v.opened, a);
  no_timer = v.no_timer;
  none_carried = λ j. ground (arith, v.none_carried j);
}
Move-Untouched i v m p = record {
  accepted = v.accepted;
  no_guest = v.no_guest;
  no_visit = v.no_visit;
  no_restart = v.no_restart;
  opened = v.opened;
  no_timer = v.no_timer;
  none_carried = λ j. ground (arith, v.none_carried j);
}

Working-Untouched : {n : ℕ} (k : ℕ) {s : Crowd ℕ} → Working n (ready k) s → Untouched k s
Working-Untouched k idle = record {
  accepted = refl;
  no_guest = refl;
  no_visit = refl;
  no_restart = refl;
  opened = refl;
  no_timer = refl;
  none_carried = λ i. refl;
}
Working-Untouched k (goes_on i lt r m p) = Move-Untouched i (Working-Untouched k r) m p

length-tasks : (k : ℕ) → length (tasks k) ≡ k
length-tasks zero = refl
length-tasks (suc k) = omega (arith, length-tasks k, length-append (tasks k) (posted k ∷ []))

-- Several threads share the tasks: when all workers have left `run`, one of them at least, each task
-- has been started once, in the order in which they were posted, whatever the interleaving, and the
-- counter is the number of tasks.
pub workers_call_all :
    {num_workers num_tasks : ℕ} {s : Crowd ℕ}
    → 0 < num_workers
    → Working num_workers (ready num_tasks) s
    → ((i : ℕ) → i < num_workers → s.pc i ≡ left)
    → (s.started ≡ tasks num_tasks) × (length s.started ≡ num_tasks)
workers_call_all {num_tasks = k} some_worker r gone =
    let v = Working-Untouched k r in
    let (all, _, _, _) =
      run_leaves_none some_worker (Working-Steps r) gone v.no_guest v.no_visit v.opened
        v.no_restart in
    let called = sym all ∙ v.accepted in (called, ap length called ∙ length-tasks k)
