-- ===== src/WorkQueue/Blocking.antt =====
-- svarog/include/svarog/execution/work_queue.hpp as threads see it: consumers inside the blocking
-- `pop()` with its condition variable, and producers. What a thread does under `m_mutex` is one
-- step, but for a consumer that finds nothing: it holds the mutex between the test of its predicate
-- and the moment when it sleeps. `stop` takes no mutex, and stores its flag before it notifies.
pub mod Invariant
pub mod Linear
pub mod Wakeups
use svarog_io.Common.{ℕ, ◌<◌, ◌≡◌, ◌≢◌, Bool, true, false, Option, none, some, if◌then◌else◌}
use svarog_io.Common.Family.{update}
use svarog_io.WorkQueue.{WorkQueue, Expected, new, push_item, pop_ready, pop, try_pop, stop, clear}

-- Where a consumer stands. From `woken` it tests the predicate again, as it does from `outside`.
pub data Pc : Type 0 where
  outside holding asleep woken : Pc

-- `lock` is the consumer that holds the mutex across two steps; `notify_due` says that a `stop` has
-- stored its flag and not yet notified.
pub record System {ℓ} (A : Type ℓ) : Type ℓ where
  pub queue : WorkQueue A
  pub pc : ℕ → Pc
  pub lock : Option ℕ
  pub notify_due : Bool

abbrev pub can_test : Pc → Bool
can_test outside = true
can_test woken = true
can_test _ = false

-- `notify_all`
abbrev pub wake : Pc → Pc
wake asleep = woken
wake outside = outside
wake holding = holding
wake woken = woken

pub data Step {ℓ} {A : Type ℓ} (n : ℕ) (s : System A) : System A → Type ℓ where
  test :
      (i : ℕ)
      → i < n
      → can_test (s.pc i) ≡ true
      → s.lock ≡ none
      → pop_ready s.queue ≡ false
      → Step n s (record s { pc = update s.pc i holding; lock = some i })
  sleep :
      (i : ℕ)
      → i < n
      → s.pc i ≡ holding
      → Step n s (record s { pc = update s.pc i asleep; lock = none })
  take :
      (i : ℕ) {q : WorkQueue A} {r : Expected A}
      → i < n
      → can_test (s.pc i) ≡ true
      → s.lock ≡ none
      → pop s.queue ≡ some (q, r)
      → Step n s (record s { queue = q; pc = update s.pc i outside })
  push_wake :
      (i : ℕ) (a : A)
      → i < n
      → s.pc i ≡ asleep
      → s.lock ≡ none
      → (push_item a s.queue).1 ≡ true
      → Step n s (record s { queue = (push_item a s.queue).0; pc = update s.pc i woken })
  push_none :
      (a : A)
      → ((j : ℕ) → s.pc j ≢ asleep)
      → s.lock ≡ none
      → (push_item a s.queue).1 ≡ true
      → Step n s (record s { queue = (push_item a s.queue).0 })
  push_refused : (a : A) → s.lock ≡ none → (push_item a s.queue).1 ≡ false → Step n s s
  try_take : s.lock ≡ none → Step n s (record s { queue = (try_pop s.queue).0 })
  empty_out : s.lock ≡ none → Step n s (record s { queue = clear s.queue })
  stop_store : Step n s (record s { queue = stop s.queue; notify_due = true })
  stop_notify :
      s.notify_due ≡ true → Step n s (record s { pc = λ j. wake (s.pc j); notify_due = false })
  spurious : (i : ℕ) → i < n → s.pc i ≡ asleep → Step n s (record s { pc = update s.pc i woken })

abbrev pub start {ℓ} : {A : Type ℓ} → System A
start = record { queue = new; pc = λ _. outside; lock = none; notify_due = false }

pub data Reach {ℓ} {A : Type ℓ} (n : ℕ) : System A → Type ℓ where
  at_start : Reach n start
  later : {s t : System A} → Reach n s → Step n s t → Reach n t
