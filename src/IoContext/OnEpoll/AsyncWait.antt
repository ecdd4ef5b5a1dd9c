-- ===== src/IoContext/OnEpoll/AsyncWait.antt =====
-- What becomes of a handler that waits for a socket.
use svarog_io.Common.{ℕ, zero, suc, ◌<◌, ◌≡◌, true, false, [], ◌∷◌, some, arith}
use svarog_io.Common.Maps.{find, assign, erase_key, find-assign}
use svarog_io.Outcome.{M, returned}
use svarog_io.WorkQueue.{try_pop, is_idle}
use svarog_io.IoContext.{
  Env, Item, run, run_one, poll, drain, calculate_timeout, get_next_timer_timeout,
}
use svarog_io.IoContext.Draining.{timers_idle, loop_idle}
use svarog_io.TimerQueue.{get_next_expiry}
use svarog_io.Reactor.Operations.{Events, from_epoll_events, has_operation}
use svarog_io.Reactor.Epoll.{Reactor, FdData, do_register, do_run_one, deliver, error_of, wanted}
use svarog_io.Reactor.Epoll
use svarog_io.Network.Socket.Operations.{Socket, WaitType}
use svarog_io.IoContext.OnEpoll.{EpollOs, Host, reactor_run_one, env_of, operation_of, async_wait}

module _ {ℓ} {H K : Type ℓ} (os : EpollOs K) (handle : H → ℕ → Host H K → Host H K) (clock : ℕ → ℕ)
    (call : Item H → M (Host H K) (Unit {0})) where
  delivered :
      (fd errno : ℕ) (e : Events) (d : FdData H) (k : K) (c : Host H K)
      → c.world.is_stopped ≡ false
      → os.wait 0 c.world.world ≡ (k, some ((fd, e) ∷ []), errno)
      → e.err ≡ false
      → find fd c.world.handlers ≡ some d
      → reactor_run_one os handle 0 c
        ≡ returned
            (handle d.handler 0 (record c {
              world = record c.world { handlers = erase_key fd c.world.handlers; world = k };
            }))
            1
  unfolding reactor_run_one do_run_one deliver error_of has_operation from_epoll_events
  delivered fd errno e d k c live waits fine there = ground (arith, live, waits, fine, there)

  drain_idle :
      (env : Env H (Reactor H K)) (fuel : ℕ) (c : Host H K)
      → c.handlers.items ≡ []
      → 0 < fuel
      → drain env fuel c ≡ returned c 0
  unfolding drain try_pop
  drain_idle env zero c e enough = absurd (omega arith)
  drain_idle env (suc fuel) c e enough = ground (arith, e)

  timeout_idle :
      (env : Env H (Reactor H K)) (c : Host H K)
      → c.handlers.items ≡ []
      → c.work_count ≡ 0
      → c.timers.timers ≡ []
      → calculate_timeout env c ≡ returned c 0
  unfolding calculate_timeout get_next_timer_timeout get_next_expiry is_idle
  timeout_idle env c e f g = ground (arith, e, f, g)

  -- `run` leaves without waiting for a socket: when `async_wait` has just registered a handler, in a
  -- context with nothing else to do, `run` returns at once, whatever the system reports about the
  -- socket, and the handler is still registered and was not called.
  pub run_leaves_async_wait :
      (fuel : ℕ) (what : WaitType) (h : H) (s : Socket) (fd : ℕ) (c c' : Host H K)
      → s.socket ≡ some fd
      → async_wait os handle what h s c ≡ Epoll.returned c'
      → c.handlers.items ≡ []
      → c.work_count ≡ 0
      → c.timers.timers ≡ []
      → 0 < fuel
      → (run (env_of os handle clock call) fuel c' ≡ returned (record c' { is_current = false }) tt)
        × (find fd c'.world.handlers
            ≡ some (record { handler = h; operations = operation_of what }))
  unfolding async_wait do_register run
  run_leaves_async_wait fuel what h s fd c c' opened waits no_handlers free no_timers enough =
      let m = c.world.handlers in
      let kept : c'.handlers ≡ c.handlers = ground (arith, opened, waits) in
      let count : c'.work_count ≡ c.work_count = ground (arith, opened, waits) in
      let timers : c'.timers ≡ c.timers = ground (arith, opened, waits) in
      let table : c'.world.handlers
          ≡ assign fd (record { handler = h; operations = operation_of what }) m =
        ground (arith, opened, waits) in
      (
        ground (
          arith,
          loop_idle (env_of os handle clock call) fuel (record c' { is_current = true })
              (ground (arith, kept, no_handlers)) (ground (arith, count, free))
              (ground (arith, timers, no_timers)) enough,
        ),
        ground (
          arith,
          table,
          find-assign fd fd (record { handler = h; operations = operation_of what }) m,
        ),
      )

  -- `poll` does not count a completion handler and `run_one` does: when the system reports one event
  -- without an error for a descriptor with a handler, in a context with nothing else to do, both call
  -- that handler once, with the registration gone, and end in the same state if the handler posts
  -- nothing; but `poll` returns 0, and `run_one` 1.
  pub completion_counted_by_run_one :
      (fuel fd errno : ℕ) (e : Events) (d : FdData H) (k : K) (c : Host H K)
      → c.world.is_stopped ≡ false
      → c.handlers.items ≡ []
      → c.work_count ≡ 0
      → c.timers.timers ≡ []
      → 0 < fuel
      → os.wait 0 c.world.world ≡ (k, some ((fd, e) ∷ []), errno)
      → e.err ≡ false
      → find fd c.world.handlers ≡ some d
      → let ready : Host H K = record c {
        is_current = true;
        reads = suc c.reads;
        world = record c.world { handlers = erase_key fd c.world.handlers; world = k };
      } in
        let after = handle d.handler 0 ready in
        after.handlers.items ≡ []
        → (poll (env_of os handle clock call) fuel c
            ≡ returned (record after { is_current = false }) 0)
          × (run_one (env_of os handle clock call) fuel c
              ≡ returned (record after { is_current = false }) 1)
  unfolding poll run_one env_of try_pop
  completion_counted_by_run_one fuel fd errno e d k c live no_handlers free no_timers enough waits
        fine there quiet =
      let env = env_of os handle clock call in
      let entered : Host H K = record c { is_current = true } in
      let polled : Host H K = record entered { reads = suc c.reads } in
      let after = handle d.handler 0 (record polled {
        world = record c.world { handlers = erase_key fd c.world.handlers; world = k };
      }) in
      let idle = timers_idle env fuel entered no_timers enough in
      let called = delivered fd errno e d k polled live waits fine there in
      (
        ground (arith, idle, called, drain_idle env fuel after quiet enough),
        ground (
          arith,
          idle,
          called,
          no_handlers,
          quiet,
          timeout_idle env polled no_handlers free no_timers,
        ),
      )
