-- ===== src/Reactor/Threads.antt =====
-- svarog/source/svarog/io/detail/epoll_reactor.cpp and include/svarog/io/detail/epoll_reactor.hpp,
-- used by any number of threads at once: those that are inside `run` of a context call `do_run_one`
-- of its one reactor. Each call of the system, each block under `m_mutex`, each access to `m_stopped`
-- and each read of an element of the event buffer is one step. What the system answers is open: any
-- events, any success or failure. A handler is not an empty function, and does not call `do_run_one`
-- itself.
pub mod Tables
pub mod Once
pub mod Overwritten
use svarog_io.Common.{
  ℕ, suc, ◌+◌, ◌<◌, ◌≤◌, ◌≡◌, Bool, true, false, ◌&&◌, List, [], ◌∷◌, ◌++◌, map, Option, none, some,
  ◌==◌, if◌then◌else◌, length,
}
use svarog_io.Common.Family.{update}
use svarog_io.Common.Maps.{find, assign, erase_key}
use svarog_io.Reactor.Operations.{IoOperation, Events}
use svarog_io.Reactor.Epoll.{FdData}

-- Where a thread stands in `do_run_one`: outside of it, at `epoll_wait`, at the reads of the
-- descriptor and of the flags of event `i` of `n`, at the look into the table with what it read, with
-- the handler that it took out, or inside the handler.
pub data Pass {ℓ} (H : Type ℓ) : Type ℓ where
  outside polling : Pass H
  at_fd : ℕ → ℕ → Pass H
  at_flags : ℕ → ℕ → ℕ → Pass H
  looking : ℕ → ℕ → ℕ → Events → Pass H
  holding : ℕ → ℕ → ℕ → Events → H → Pass H
  calling : ℕ → ℕ → Pass H

-- Where it stands in a call that changes the table: in none; in `do_register` behind the entry into
-- the table; in `do_unregister` or in `do_modify` behind the call of the system.
pub data Change : Type 0 where
  quiet : Change
  adding deleting : ℕ → Change
  modifying : ℕ → IoOperation → Change

abbrev pub is_quiet : Change → Bool
is_quiet quiet = true
is_quiet _ = false

pub record Thread {ℓ} (H : Type ℓ) : Type ℓ where
  pub pass : Pass H
  pub change : Change

-- `m_stopped`, `m_handlers`, `m_events` and the threads. The rest is history: the descriptors of the
-- events that the system has reported, the handlers given to `do_register`, those called, and those
-- destroyed without a call.
pub record Shared {ℓ} (H : Type ℓ) : Type ℓ where
  pub is_stopped : Bool
  pub handlers : List (ℕ × FdData H)
  pub buffer : ℕ → ℕ × Events
  pub threads : ℕ → Thread H
  pub reported : List ℕ
  pub registered : List H
  pub called : List H
  pub destroyed : List H

abbrev pub max_events : ℕ
max_events = 128

-- `epoll_wait` writes the events to the buffer, from place `k` on.
unfoldable pub written : ℕ → List (ℕ × Events) → (ℕ → ℕ × Events) → ℕ → ℕ × Events
written k [] buffer = buffer
written k (e ∷ es) buffer = update (written (suc k) es buffer) k e

module _ {ℓ} {H : Type ℓ} where
  -- The handlers that the table has for a descriptor.
  unfoldable pub handlers_at : ℕ → List (ℕ × FdData H) → List H
  handlers_at fd [] = []
  handlers_at fd ((j, d) ∷ m) =
      let rest = handlers_at fd m in if j == fd then d.handler ∷ rest else rest

  abbrev pub in_user_code : Pass H → Bool
  in_user_code outside = true
  in_user_code (calling i n) = true
  in_user_code _ = false

  -- A thread is outside `do_run_one` or inside a handler, and in no other call.
  abbrev pub can_call : Thread H → Bool
  can_call t = is_quiet t.change && in_user_code t.pass

  abbrev pub passes : Shared H → ℕ → Pass H → Shared H
  passes s i p = record s { threads = update s.threads i (record (s.threads i) { pass = p }) }

  abbrev pub changes : Shared H → ℕ → Change → Shared H
  changes s i c = record s { threads = update s.threads i (record (s.threads i) { change = c }) }

  -- The steps of thread `i`.
  pub data Move (s : Shared H) (i : ℕ) : Shared H → Type ℓ where
    pass_stopped :
        (s.threads i).pass ≡ outside
        → (s.threads i).change ≡ quiet
        → s.is_stopped ≡ true
        → Move s i (passes s i outside)
    pass_on :
        (s.threads i).pass ≡ outside
        → (s.threads i).change ≡ quiet
        → s.is_stopped ≡ false
        → Move s i (passes s i polling)
    wait_failed : (s.threads i).pass ≡ polling → Move s i (passes s i outside)
    wait_reports :
        (es : List (ℕ × Events))
        → (s.threads i).pass ≡ polling
        → length es ≤ max_events
        → Move s i (record (passes s i (at_fd 0 (length es))) {
          buffer = written 0 es s.buffer;
          reported = s.reported ++ map (λ e. e.0) es;
        })
    pass_ends : {k n : ℕ} → (s.threads i).pass ≡ at_fd k n → n ≤ k → Move s i (passes s i outside)
    read_fd :
        {k n : ℕ}
        → (s.threads i).pass ≡ at_fd k n
        → k < n
        → Move s i (passes s i (at_flags k n (s.buffer k).0))
    read_flags :
        {k n fd : ℕ}
        → (s.threads i).pass ≡ at_flags k n fd
        → Move s i (passes s i (looking k n fd (s.buffer k).1))
    find_none :
        {k n fd : ℕ} {e : Events}
        → (s.threads i).pass ≡ looking k n fd e
        → find fd s.handlers ≡ none
        → Move s i (passes s i (at_fd (suc k) n))
    find_some :
        {k n fd : ℕ} {e : Events} {d : FdData H}
        → (s.threads i).pass ≡ looking k n fd e
        → find fd s.handlers ≡ some d
        → Move s i (record (passes s i (holding k n fd e (d.handler))) {
          handlers = erase_key fd s.handlers;
        })
    -- With `SO_ERROR` if the flags have an error
    call_handler :
        {k n fd : ℕ} {e : Events} {h : H}
        → (s.threads i).pass ≡ holding k n fd e h
        → Move s i (record (passes s i (calling k n)) { called = s.called ++ h ∷ [] })
    handler_returns :
        {k n : ℕ}
        → (s.threads i).pass ≡ calling k n
        → (s.threads i).change ≡ quiet
        → Move s i (passes s i (at_fd (suc k) n))
    handler_throws :
        {k n : ℕ}
        → (s.threads i).pass ≡ calling k n
        → (s.threads i).change ≡ quiet
        → Move s i (passes s i outside)
    register_entry :
        (fd : ℕ) (ops : IoOperation) (h : H)
        → can_call (s.threads i) ≡ true
        → Move s i (record (changes s i (adding fd)) {
          handlers = assign fd (record { handler = h; operations = ops }) s.handlers;
          registered = s.registered ++ h ∷ [];
          destroyed = s.destroyed ++ handlers_at fd s.handlers;
        })
    register_done : {fd : ℕ} → (s.threads i).change ≡ adding fd → Move s i (changes s i quiet)
    register_failed :
        {fd : ℕ}
        → (s.threads i).change ≡ adding fd
        → Move s i (record (changes s i quiet) {
          handlers = erase_key fd s.handlers;
          destroyed = s.destroyed ++ handlers_at fd s.handlers;
        })
    unregister_done :
        (fd : ℕ) → can_call (s.threads i) ≡ true → Move s i (changes s i (deleting fd))
    unregister_erases :
        {fd : ℕ}
        → (s.threads i).change ≡ deleting fd
        → Move s i (record (changes s i quiet) {
          handlers = erase_key fd s.handlers;
          destroyed = s.destroyed ++ handlers_at fd s.handlers;
        })
    modify_done :
        (fd : ℕ) (ops : IoOperation)
        → can_call (s.threads i) ≡ true
        → Move s i (changes s i (modifying fd ops))
    modify_entry :
        {fd : ℕ} {ops : IoOperation} {d : FdData H}
        → (s.threads i).change ≡ modifying fd ops
        → find fd s.handlers ≡ some d
        → Move s i (record (changes s i quiet) {
          handlers = assign fd (record d { operations = ops }) s.handlers;
        })
    modify_none :
        {fd : ℕ} {ops : IoOperation}
        → (s.threads i).change ≡ modifying fd ops
        → find fd s.handlers ≡ none
        → Move s i (changes s i quiet)
    stops : can_call (s.threads i) ≡ true → Move s i (record s { is_stopped = true })

  -- A reactor without handlers, and threads that have not called it.
  abbrev pub start : (ℕ → ℕ × Events) → Shared H
  start buffer = record {
    is_stopped = false;
    handlers = [];
    buffer = buffer;
    threads = λ i. record { pass = outside; change = quiet };
    reported = [];
    registered = [];
    called = [];
    destroyed = [];
  }

  pub data Steps (n : ℕ) (s : Shared H) : Shared H → Type ℓ where
    here : Steps n s s
    later : {t u : Shared H} (i : ℕ) → i < n → Steps n s t → Move t i u → Steps n s u
