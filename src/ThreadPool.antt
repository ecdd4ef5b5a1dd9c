-- ===== src/ThreadPool.antt =====
-- svarog/source/svarog/execution/thread_pool.cpp and include/svarog/execution/thread_pool.hpp: the
-- workers inside `io_context::run` of one context, the thread that calls `stop`, and the threads
-- that post. Each access to shared state (a flag, the work count, a call of the handler queue, a stop
-- token) is one step. The context has no timers and no descriptors; a handler posts, and returns or
-- throws. Handlers and threads outside do not stop the context or hold work guards on it.
pub mod Running
mod Bounds
pub mod Falling
pub mod Stopping
pub mod Reviving
pub mod Dropping
pub mod Strands
use svarog_io.Common.{
  ℕ, zero, suc, ◌<◌, ◌≤◌, ◌≡◌, ◌≢◌, Bool, true, false, List, [], ◌∷◌, ◌++◌, ltb, if◌then◌else◌,
}
use svarog_io.Common.Family.{update}
use svarog_io.Contracts.{Build, Checked, expects}
use svarog_io.WorkQueue.{WorkQueue, Expected, value, unexpected, new, push_item, try_pop}
use svarog_io.WorkQueue

-- Where a worker stands in `worker_thread`: at the two tests of its loop; in `run`, at `stopped()`,
-- at the two reads of `has_pending_work`, before and in the loop over handlers, and inside a
-- handler; at the two tests after `run`; at the two steps of `restart`; in a `catch`; or at its end.
pub data Pc : Type 0 where
  token_test stopped_test : Pc
  run_test queue_test count_test waiting draining calling : Pc
  stopped_again token_again : Pc
  clearing reviving : Pc
  caught : Pc
  finished : Pc

-- Where `stop` stands: not called, behind `m_work_guard.reset()`, behind the store to the flag of
-- the context, and behind `m_handlers.stop()`, where it requests the tokens and joins the threads.
pub data Phase : Type 0 where
  running released flagged closing : Phase

-- `m_queue` of the handlers, `m_stopped` and `m_work_count` of the context, the workers, and `stop`
-- with the number of tokens requested and of threads joined. `accepted` and `started` record the
-- handlers that were queued and those that were taken.
pub record Pool {ℓ} (H : Type ℓ) : Type ℓ where
  pub handlers : WorkQueue H
  pub is_stopped : Bool
  pub work_count : ℕ
  pub pc : ℕ → Pc
  pub phase : Phase
  pub requested : ℕ
  pub joined : ℕ
  pub accepted : List H
  pub started : List H

-- `thread_pool(t_num_threads)`: the workers of the pool after its constructor; none are asked for
-- only if contracts are off.
unfoldable pub construct {ℓ} : {H : Type ℓ} → Build → ℕ → Checked (Pool H)
unfolding expects
construct b threads = expects b (ltb 0 threads) (record {
  handlers = new;
  is_stopped = false;
  work_count = 1;
  pc = λ i. token_test;
  phase = running;
  requested = 0;
  joined = 0;
  accepted = [];
  started = [];
})

abbrev pub start {ℓ} : {H : Type ℓ} → Pool H
start = record {
  handlers = new;
  is_stopped = false;
  work_count = 1;
  pc = λ i. token_test;
  phase = running;
  requested = 0;
  joined = 0;
  accepted = [];
  started = [];
}

module _ {ℓ} {H : Type ℓ} where
  abbrev pub stopped : Pool H → Bool
  stopped s = s.is_stopped

  -- Worker `i` goes on at `p`.
  abbrev pub goes : Pool H → ℕ → Pc → Pool H
  goes s i p = record s { pc = update s.pc i p }

  -- `stop_requested()` of worker `i`: `stop` asks the workers in their order.
  abbrev pub asked : Pool H → ℕ → Bool
  asked s i = ltb i s.requested

  -- The steps of worker `i`.
  pub data Move (s : Pool H) (i : ℕ) : Pool H → Type ℓ where
    see_token : s.pc i ≡ token_test → asked s i ≡ true → Move s i (goes s i finished)
    no_token : s.pc i ≡ token_test → asked s i ≡ false → Move s i (goes s i stopped_test)
    see_stopped : s.pc i ≡ stopped_test → s.is_stopped ≡ true → Move s i (goes s i finished)
    enter_run : s.pc i ≡ stopped_test → s.is_stopped ≡ false → Move s i (goes s i run_test)
    run_stopped : s.pc i ≡ run_test → s.is_stopped ≡ true → Move s i (goes s i stopped_again)
    run_on : s.pc i ≡ run_test → s.is_stopped ≡ false → Move s i (goes s i queue_test)
    has_handlers : s.pc i ≡ queue_test → s.handlers.items ≢ [] → Move s i (goes s i waiting)
    no_handlers : s.pc i ≡ queue_test → s.handlers.items ≡ [] → Move s i (goes s i count_test)
    has_work : s.pc i ≡ count_test → 0 < s.work_count → Move s i (goes s i waiting)
    no_work : s.pc i ≡ count_test → s.work_count ≡ 0 → Move s i (goes s i stopped_again)
    wait_over : s.pc i ≡ waiting → Move s i (goes s i draining)
    take :
        {q : WorkQueue H} {h : H}
        → s.pc i ≡ draining
        → try_pop s.handlers ≡ (q, value h)
        → Move s i
            (record s { handlers = q; pc = update s.pc i calling; started = s.started ++ h ∷ [] })
    take_none : s.pc i ≡ draining → s.handlers.items ≡ [] → Move s i (goes s i run_test)
    handler_posts :
        (h : H)
        → s.pc i ≡ calling
        → (push_item h s.handlers).1 ≡ true
        → Move s i
            (record s { handlers = (push_item h s.handlers).0; accepted = s.accepted ++ h ∷ [] })
    handler_returns : s.pc i ≡ calling → Move s i (goes s i draining)
    handler_throws : s.pc i ≡ calling → Move s i (goes s i caught)
    caught_asked : s.pc i ≡ caught → asked s i ≡ true → Move s i (goes s i finished)
    caught_on : s.pc i ≡ caught → asked s i ≡ false → Move s i (goes s i token_test)
    leave_stopped : s.pc i ≡ stopped_again → s.is_stopped ≡ true → Move s i (goes s i finished)
    not_stopped : s.pc i ≡ stopped_again → s.is_stopped ≡ false → Move s i (goes s i token_again)
    leave_asked : s.pc i ≡ token_again → asked s i ≡ true → Move s i (goes s i finished)
    restart_run : s.pc i ≡ token_again → asked s i ≡ false → Move s i (goes s i clearing)
    clear_handlers :
        s.pc i ≡ clearing
        → Move s i (record s { handlers = WorkQueue.clear s.handlers; pc = update s.pc i reviving })
    revive :
        s.pc i ≡ reviving
        → Move s i (record s { is_stopped = false; pc = update s.pc i token_test })

  -- A worker steps, a thread outside posts, or `stop` goes on.
  pub data Step (n : ℕ) (s : Pool H) : Pool H → Type ℓ where
    work : {t : Pool H} (i : ℕ) → i < n → Move s i t → Step n s t
    post :
        (h : H)
        → (push_item h s.handlers).1 ≡ true
        → Step n s
            (record s { handlers = (push_item h s.handlers).0; accepted = s.accepted ++ h ∷ [] })
    reset_guard : s.phase ≡ running → Step n s (record s { work_count = 0; phase = released })
    store_stopped : s.phase ≡ released → Step n s (record s { is_stopped = true; phase = flagged })
    stop_handlers :
        s.phase ≡ flagged
        → Step n s (record s { handlers = WorkQueue.stop s.handlers; phase = closing })
    request :
        s.phase ≡ closing → s.requested < n → Step n s (record s { requested = suc s.requested })
    join :
        s.phase ≡ closing
        → s.requested ≡ n
        → s.joined < n
        → s.pc s.joined ≡ finished
        → Step n s (record s { joined = suc s.joined })

  pub data Steps (n : ℕ) (s : Pool H) : Pool H → Type ℓ where
    here : Steps n s s
    later : {t u : Pool H} → Steps n s t → Step n t u → Steps n s u

  abbrev pub Reach : ℕ → Pool H → Type ℓ
  Reach n s = Steps n start s
