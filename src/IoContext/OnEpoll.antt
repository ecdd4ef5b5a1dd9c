-- ===== src/IoContext/OnEpoll.antt =====
-- An `io_context` of Linux: its reactor is the epoll reactor, and the handlers of both may use all of
-- it. `K` is the state of the system. The context is at once the world of the reactor's handlers and
-- the owner of the reactor, so it goes over into a reactor and back.
pub mod AsyncWait
use svarog_io.Common.{ℕ, Bool, true, false, List, [], Option, none, some}
use svarog_io.Outcome.{M, Outcome, returned}
use svarog_io.Outcome
use svarog_io.IoContext.{Context, Env, Item}
use svarog_io.Reactor.Operations.{IoOperation, Events, no_operation}
use svarog_io.Reactor.Epoll.{Reactor, Epoll, Called, do_run_one, do_register}
use svarog_io.Reactor.Epoll
use svarog_io.Reactor.Base.{register_descriptor, run_one, epoll_reactor}
use svarog_io.Network.Socket.Operations.{Socket, WaitType, wait_read, wait_write, wait_error}

-- The system calls of the epoll reactor on the state of the system alone. `ebadf` is what `epoll_ctl`
-- answers for the descriptor -1.
pub record EpollOs {ℓ} (K : Type ℓ) : Type ℓ where
  pub add : ℕ → Events → K → K × Option ℕ
  pub delete : ℕ → K → K × Option ℕ
  pub modify : ℕ → Events → K → K × Option ℕ
  pub wait : ℕ → K → K × Option (List (ℕ × Events)) × ℕ
  pub so_error : ℕ → K → K × ℕ
  pub enoent : ℕ
  pub eintr : ℕ
  pub ebadf : ℕ

-- An `io_context` with its `m_reactor`.
abbrev pub Host {ℓ} : Type ℓ → Type ℓ → Type ℓ
Host H K = Context H (Reactor H K)

-- The context without its reactor.
abbrev pub Rest {ℓ} : Type ℓ → Type ℓ
Rest H = Context H (Unit {ℓ})

module _ {ℓ} {H K : Type ℓ} where
  abbrev pub to_reactor : Host H K → Reactor H (K × (Rest H))
  to_reactor c = record {
    is_stopped = c.world.is_stopped;
    edge_triggered = c.world.edge_triggered;
    handlers = c.world.handlers;
    world = (
      c.world.world,
      record {
        is_stopped = c.is_stopped;
        handlers = c.handlers;
        work_count = c.work_count;
        is_current = c.is_current;
        timers = c.timers;
        reads = c.reads;
        world = tt;
      },
    );
  }

  abbrev pub of_reactor : Reactor H (K × (Rest H)) → Host H K
  of_reactor r =
      let c = r.world.1 in
      record {
        is_stopped = c.is_stopped;
        handlers = c.handlers;
        work_count = c.work_count;
        is_current = c.is_current;
        timers = c.timers;
        reads = c.reads;
        world = record {
          is_stopped = r.is_stopped;
          edge_triggered = r.edge_triggered;
          handlers = r.handlers;
          world = r.world.0;
        };
      }

  -- The reactor's view of the system; `handle` is what a completion handler does with its code.
  abbrev pub epoll_of : EpollOs K → (H → ℕ → Host H K → Host H K) → Epoll H (K × (Rest H))
  epoll_of os handle = record {
    add = λ fd e w. let (k, error) = os.add fd e w.0 in ((k, w.1), error);
    delete = λ fd w. let (k, error) = os.delete fd w.0 in ((k, w.1), error);
    modify = λ fd e w. let (k, error) = os.modify fd e w.0 in ((k, w.1), error);
    wait = λ t w. let (k, events, errno) = os.wait t w.0 in ((k, w.1), events, errno);
    so_error = λ fd w. let (k, code) = os.so_error fd w.0 in ((k, w.1), code);
    call = λ h code r. to_reactor (handle h code (of_reactor r));
    enoent = os.enoent;
    eintr = os.eintr;
  }

  -- `m_reactor.run_one(timeout)`
  unfoldable pub reactor_run_one : EpollOs K → (H → ℕ → Host H K → Host H K) → ℕ → M (Host H K) ℕ
  unfolding do_run_one
  reactor_run_one os handle timeout c =
      elim (run_one (epoll_reactor (epoll_of os handle)) timeout (to_reactor c)) [
        | Epoll.returned (r, n) ↦ Outcome.returned (of_reactor r) n
        | Epoll.threw e (r, n) ↦ Outcome.threw (of_reactor r)
      ]

  unfoldable pub env_of :
      EpollOs K
      → (H → ℕ → Host H K → Host H K)
      → (ℕ → ℕ)
      → (Item H → M (Host H K) (Unit {0}))
      → Env H (Reactor H K)
  unfolding reactor_run_one
  env_of os handle clock call = record {
    clock = clock;
    call = call;
    reactor_run_one = reactor_run_one os handle;
  }

-- The operation that `async_wait` asks the reactor for.
unfoldable pub operation_of : WaitType → IoOperation
operation_of wait_read = record no_operation { read = true }
operation_of wait_write = record no_operation { write = true }
operation_of wait_error = record no_operation { error = true }

-- `basic_socket::async_wait` on a socket of this context. A socket that is not open has the
-- descriptor -1, which the system refuses, and no handler is left for it.
unfoldable pub async_wait {ℓ} :
    {H K : Type ℓ}
    → EpollOs K
    → (H → ℕ → Host H K → Host H K)
    → WaitType
    → H
    → Socket
    → Host H K
    → Called (Host H K)
unfolding operation_of do_register
async_wait os handle what h s c = elim s.socket [
  | none ↦ Epoll.threw os.ebadf c
  | some fd ↦
      elim (register_descriptor (epoll_reactor (epoll_of os handle)) fd (operation_of what) h
        (to_reactor c)) [
          | Epoll.returned r ↦ Epoll.returned (of_reactor r)
          | Epoll.threw e r ↦ Epoll.threw e (of_reactor r)
        ]
]
