-- ===== src/Strand.antt =====
-- svarog/include/svarog/execution/strand.hpp: one strand, used by any number of threads. Each access
-- to the shared state is one step, and the threads interleave in any order (sequential consistency,
-- which is stronger than the acquire and release orders of the source). The underlying executor
-- queues what it is given, as the executor of an `io_context` does.
pub mod Invariant
pub mod Safety
pub mod Stuck
use svarog_io.Common.{
  ℕ, suc, ◌+◌, ◌≤◌, ◌<◌, ◌≡◌, ◌≢◌, ◌⊎◌, Bool, true, false, List, [], ◌∷◌, ◌++◌, Option, none, some,
}
use svarog_io.Common.Family.{update}
use svarog_io.WorkQueue.{
  WorkQueue, Expected, value, unexpected, QueueError, new, push_item, try_pop,
}

abbrev pub max_recursion_depth : ℕ
max_recursion_depth = 100

-- Where a thread stands in `execute_next`, by what it does next.
pub data Drain : Type 0 where
  off : Drain  -- not in `execute_next`
  entered : Drain  -- store the thread id
  popping : Drain  -- `try_pop`
  handling : Drain  -- in the handler that was popped
  clearing : Drain  -- clear the thread id
  releasing : Drain  -- store false into `m_executing`
  checking : Drain  -- `m_queue.empty()`
  retaking : Drain  -- the compare-exchange
  restoring : Drain  -- store the thread id again

-- Where a thread stands in `post`, by what it does next.
pub data Post : Type 0 where
  quiet : Post  -- not in `post`
  claiming : Post  -- the compare-exchange, the handler being queued
  submitting : Post  -- `m_executor.execute`

-- `depth` is `s_execution_depth`, thread-local.
pub record Thread : Type 0 where
  pub drain : Drain
  pub post : Post
  pub depth : ℕ

abbrev pub idle : Thread
idle = record { drain = off; post = quiet; depth = 0 }

-- Where a thread may call `post` or `dispatch`: outside the strand, or from a handler.
abbrev pub can_call : Drain → Bool
can_call off = true
can_call handling = true
can_call _ = false

-- `queue`, `executing` and `running` are the fields of `strand_state`; `scheduled` counts the calls
-- of `execute_next` that wait in the executor. The rest is bookkeeping: the handlers queued and
-- popped so far, and the calls of `execute_next` that the executor threw away.
pub record System {ℓ} (H : Type ℓ) : Type ℓ where
  pub queue : WorkQueue H
  pub executing : Bool
  pub running : Option ℕ
  pub scheduled : ℕ
  pub threads : ℕ → Thread
  pub queued : List H
  pub started : List H
  pub lost : ℕ

module _ {ℓ} {H : Type ℓ} where
  abbrev pub set_drain : System H → ℕ → Drain → ℕ → Thread
  set_drain s i d = update s.threads i (record (s.threads i) { drain = d })

  abbrev pub set_post : System H → ℕ → Post → ℕ → Thread
  set_post s i p = update s.threads i (record (s.threads i) { post = p })

  abbrev pub set_depth : System H → ℕ → ℕ → ℕ → Thread
  set_depth s i k = update s.threads i (record (s.threads i) { depth = k })

  -- `running_in_this_thread`, on thread `i`
  abbrev pub Inside : System H → ℕ → Type 0
  Inside s i = s.running ≡ some i

  -- Thread `i` pushes a handler: the first half of `post`.
  abbrev pub pushed : System H → ℕ → H → System H
  pushed s i h = record s {
    queue = (push_item h s.queue).0;
    threads = set_post s i claiming;
    queued = s.queued ++ h ∷ [];
  }

-- One step of thread `i`. The threads that call `post` and `dispatch`, and the handlers, may do so
-- at any time; an exception ends a handler as a return does.
pub data Move {ℓ} {H : Type ℓ} (s : System H) (i : ℕ) : System H → Type ℓ where
  post_push :
      (h : H)
      → can_call (s.threads i).drain ≡ true
      → (s.threads i).post ≡ quiet
      → Move s i (pushed s i h)
  post_claim :
      (s.threads i).post ≡ claiming
      → s.executing ≡ false
      → Move s i (record s { executing = true; threads = set_post s i submitting })
  post_leave :
      (s.threads i).post ≡ claiming
      → s.executing ≡ true
      → Move s i (record s { threads = set_post s i quiet })
  post_submit :
      (s.threads i).post ≡ submitting
      → Move s i (record s { scheduled = suc s.scheduled; threads = set_post s i quiet })
  -- The executor of a stopped context ignores what it is given.
  post_rejected :
      (s.threads i).post ≡ submitting
      → Move s i (record s { lost = suc s.lost; threads = set_post s i quiet })
  dispatch_inline :
      can_call (s.threads i).drain ≡ true
      → (s.threads i).post ≡ quiet
      → Inside s i
      → (s.threads i).depth < max_recursion_depth
      → Move s i (record s { threads = set_depth s i (suc (s.threads i).depth) })
  dispatch_return :
      {k : ℕ}
      → (s.threads i).post ≡ quiet
      → (s.threads i).depth ≡ suc k
      → Move s i (record s { threads = set_depth s i k })
  dispatch_post :
      (h : H)
      → can_call (s.threads i).drain ≡ true
      → (s.threads i).post ≡ quiet
      → (¬ Inside s i) ⊎ (max_recursion_depth ≤ (s.threads i).depth)
      → Move s i (pushed s i h)
  enter :
      {k : ℕ}
      → s.threads i ≡ idle
      → s.scheduled ≡ suc k
      → Move s i (record s { scheduled = k; threads = set_drain s i entered })
  store_id :
      (s.threads i).drain ≡ entered
      → Move s i (record s { running = some i; threads = set_drain s i popping })
  pop_handler :
      {q : WorkQueue H} {h : H}
      → (s.threads i).drain ≡ popping
      → try_pop s.queue ≡ (q, value h)
      → Move s i
          (record s { queue = q; threads = set_drain s i handling; started = s.started ++ h ∷ [] })
  pop_nothing :
      {q : WorkQueue H} {e : QueueError}
      → (s.threads i).drain ≡ popping
      → try_pop s.queue ≡ (q, unexpected e)
      → Move s i (record s { queue = q; threads = set_drain s i clearing })
  handler_end :
      (s.threads i).drain ≡ handling
      → (s.threads i).post ≡ quiet
      → (s.threads i).depth ≡ 0
      → Move s i (record s { threads = set_drain s i popping })
  clear_id :
      (s.threads i).drain ≡ clearing
      → Move s i (record s { running = none; threads = set_drain s i releasing })
  release :
      (s.threads i).drain ≡ releasing
      → Move s i (record s { executing = false; threads = set_drain s i checking })
  leave_empty :
      (s.threads i).drain ≡ checking
      → s.queue.items ≡ []
      → Move s i (record s { threads = set_drain s i off })
  see_items :
      (s.threads i).drain ≡ checking
      → s.queue.items ≢ []
      → Move s i (record s { threads = set_drain s i retaking })
  retake :
      (s.threads i).drain ≡ retaking
      → s.executing ≡ false
      → Move s i (record s { executing = true; threads = set_drain s i restoring })
  leave_to_other :
      (s.threads i).drain ≡ retaking
      → s.executing ≡ true
      → Move s i (record s { threads = set_drain s i off })
  restore_id :
      (s.threads i).drain ≡ restoring
      → Move s i (record s { running = some i; threads = set_drain s i popping })

-- One of `n` threads moves, or the executor throws a waiting call away, as `io_context::restart`
-- does.
pub data Step {ℓ} {H : Type ℓ} (n : ℕ) (s : System H) : System H → Type ℓ where
  pick : (i : ℕ) {t : System H} → i < n → Move s i t → Step n s t
  discard : {k : ℕ} → s.scheduled ≡ suc k → Step n s (record s { scheduled = k; lost = suc s.lost })

abbrev pub start {ℓ} : {H : Type ℓ} → System H
start = record {
  queue = new;
  executing = false;
  running = none;
  scheduled = 0;
  threads = λ _. idle;
  queued = [];
  started = [];
  lost = 0;
}

pub data Steps {ℓ} {H : Type ℓ} (n : ℕ) (s : System H) : System H → Type ℓ where
  here : Steps n s s
  later : {t u : System H} → Steps n s t → Step n t u → Steps n s u

-- What `n` threads can reach from a new strand.
abbrev pub Reach {ℓ} : {H : Type ℓ} → ℕ → System H → Type ℓ
Reach n s = Steps n start s
