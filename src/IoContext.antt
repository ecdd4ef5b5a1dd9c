-- ===== src/IoContext.antt =====
-- svarog/source/svarog/io/io_context.cpp and include/svarog/io/io_context.hpp, on one thread. The
-- clock, the reactor of the platform and the callable objects are parameters (`Env`).
pub mod Timeouts
pub mod Expiring
pub mod Draining
pub mod Restarting
pub mod OnEpoll
pub mod Threads
pub mod Executor
pub mod Stepping
use svarog_io.Common.{
  ℕ, zero, suc, ◌+◌, ◌-◌, ◌/◌, ◌^◌, ◌<◌, Bool, true, false, not, ◌&&◌, List, [], ◌∷◌, Option, none,
  some, ltb, leb, if◌then◌else◌, min,
}
use svarog_io.Contracts.{Build, contracts_enabled}
use svarog_io.Outcome.{
  Outcome, returned, threw, terminated, unfinished, M, ◌>>=◌, ◌>>◌, pure, read, modify, lift,
}
use svarog_io.WorkQueue.{WorkQueue, Expected, value, unexpected, push_item}
use svarog_io.WorkQueue
use svarog_io.TimerQueue.{TimerQueue}
use svarog_io.TimerQueue

-- What the handler queue holds: a handler as posted, or a timer handler in the lambda that calls it
-- with an empty error code.
pub data Item {ℓ} (H : Type ℓ) : Type ℓ where
  posted : H → Item H
  fired : H → Item H

-- `m_stopped`, `m_handlers`, `m_work_count` and `m_timer_queue`; `is_current` says that
-- `s_current_context` of this thread is this context, `reads` counts the readings of the clock, and
-- `world` is all that handlers change beside the context, the reactor included.
pub record Context {ℓ} (H W : Type ℓ) : Type ℓ where
  pub is_stopped : Bool
  pub handlers : WorkQueue (Item H)
  pub work_count : ℕ
  pub is_current : Bool
  pub timers : TimerQueue H
  pub reads : ℕ
  pub world : W

abbrev pub new {ℓ} : {H W : Type ℓ} → W → Context H W
new w = record {
  is_stopped = false;
  handlers = WorkQueue.new;
  work_count = 0;
  is_current = false;
  timers = TimerQueue.new;
  reads = 0;
  world = w;
}

-- What the context relies on: the readings of `steady_clock::now()` in clock ticks, what calling a
-- handler does, and `run_one` of the reactor, which calls completion handlers and counts them.
pub record Env {ℓ} (H W : Type ℓ) : Type ℓ where
  pub clock : ℕ → ℕ
  pub call : Item H → M (Context H W) (Unit {0})
  pub reactor_run_one : ℕ → M (Context H W) ℕ

-- A millisecond is a million ticks of the clock; `milliseconds::max()` counts 2^63 - 1.
abbrev pub ticks_per_ms : ℕ
ticks_per_ms = 1_000_000

abbrev pub milliseconds_max : ℕ
milliseconds_max = 2 ^ 63 - 1

abbrev pub max_wait : ℕ
max_wait = 100

module _ {ℓ} {H W : Type ℓ} where
  unfoldable pub stopped : Context H W → Bool
  stopped c = c.is_stopped

  unfoldable pub has_pending_work : Context H W → Bool
  has_pending_work c =
      if not (WorkQueue.is_idle c.handlers)
      then true
      else if ltb 0 c.work_count
      then true
      else not (TimerQueue.is_idle c.timers)

  unfoldable pub stop : Context H W → Context H W
  stop c = record c { is_stopped = true; handlers = WorkQueue.stop c.handlers }

  unfoldable pub restart : Context H W → Context H W
  restart c = record c { is_stopped = false; handlers = WorkQueue.clear c.handlers }

  -- `post`, and `executor_type::execute`: what `push` returns is ignored.
  unfoldable pub post : H → Context H W → Context H W
  post h c = record c { handlers = (push_item (posted h) c.handlers).0 }

  unfoldable pub running_in_this_thread : Context H W → Bool
  running_in_this_thread c = c.is_current

  module _ (env : Env H W) where
    -- `std::chrono::steady_clock::now()`
    abbrev pub now : M (Context H W) ℕ
    now c = returned (record c { reads = suc c.reads }) (env.clock c.reads)

    abbrev pub set_current : Bool → M (Context H W) (Unit {0})
    set_current b = modify λ c. record c { is_current = b }

    -- `try_pop` of the handler queue
    abbrev pub take_handler : M (Context H W) (Expected (Item H))
    take_handler =
        lift λ c. let (q, r) = WorkQueue.try_pop c.handlers in (record c { handlers = q }, r)

    -- `pop_expired` at a fresh reading of the clock
    abbrev pub take_timer : M (Context H W) (Option H)
    take_timer = do
      at ← now
      lift λ c. let (q, h) = TimerQueue.pop_expired at c.timers in (record c { timers = q }, h)

    -- The body of `process_timers` behind `pop_expired`.
    abbrev pub push_fired : Option H → M (Context H W) (Unit {0})
    push_fired none = pure tt
    push_fired (some h) = modify λ c. record c { handlers = (push_item (fired h) c.handlers).0 }

    unfoldable pub process_timers_loop : ℕ → ℕ → M (Context H W) (Unit {0})
    process_timers_loop zero start c = unfinished
    process_timers_loop (suc fuel) start c =
        let round =
          (do handler ← take_timer; push_fired handler; process_timers_loop fuel start) c in
        if TimerQueue.has_expired start c.timers then round else returned c tt

    unfoldable pub process_timers : ℕ → M (Context H W) (Unit {0})
    process_timers fuel = do start ← now; process_timers_loop fuel start

    unfoldable pub get_next_timer_timeout : M (Context H W) ℕ
    get_next_timer_timeout c = elim (TimerQueue.get_next_expiry c.timers) [
      | none ↦ returned c milliseconds_max
      | some expiry ↦
          (do at ← now; pure (if leb expiry at then 0 else (expiry - at) / ticks_per_ms)) c
    ]

    unfoldable pub calculate_timeout : M (Context H W) ℕ
    calculate_timeout c =
        let waits =
          (do
            timer_timeout ← get_next_timer_timeout
            read λ c'. if ltb 0 c'.work_count then min timer_timeout max_wait else 0)
            c in
        if not (WorkQueue.is_idle c.handlers) then returned c 0 else waits

    -- The inner loop of `run` and the loop of `poll`: call handlers until none is left.
    unfoldable pub drain : ℕ → M (Context H W) ℕ
    drain zero c = unfinished
    drain (suc fuel) c =
        (do
          handler ← take_handler
          elim handler [
            | unexpected e ↦ pure 0
            | value item ↦ (do env.call item; count ← drain fuel; pure (suc count))
          ])
          c

    unfoldable pub run_loop : ℕ → M (Context H W) (Unit {0})
    run_loop zero c = unfinished
    run_loop (suc fuel) c =
        let round =
          (do
            process_timers fuel
            timeout ← calculate_timeout
            env.reactor_run_one timeout
            drain fuel
            run_loop fuel)
            c in
        if c.is_stopped then returned c tt else if has_pending_work c then round else returned c tt

    unfoldable pub run : ℕ → M (Context H W) (Unit {0})
    run fuel = do set_current true; run_loop fuel; set_current false

    -- Call a handler that was taken and return 1, or go on.
    abbrev pub call_or : M (Context H W) ℕ → Expected (Item H) → M (Context H W) ℕ
    call_or rest (value item) = do env.call item; set_current false; pure 1
    call_or rest (unexpected e) = rest

    abbrev pub leave_with : ℕ → M (Context H W) ℕ
    leave_with count = do set_current false; pure count

    unfoldable pub run_one : ℕ → M (Context H W) ℕ
    run_one fuel = do
      set_current true
      process_timers fuel
      handler ← take_handler
      call_or
          (do
            timeout ← calculate_timeout
            count ← env.reactor_run_one timeout
            again ← take_handler
            call_or (leave_with count) again)
          handler

    -- `m_reactor.poll_one()` is `run_one` without a wait.
    unfoldable pub poll : ℕ → M (Context H W) ℕ
    poll fuel = do
      set_current true
      process_timers fuel
      env.reactor_run_one 0
      count ← drain fuel
      set_current false
      pure count

    unfoldable pub poll_one : ℕ → M (Context H W) ℕ
    poll_one fuel = do
      set_current true
      process_timers fuel
      env.reactor_run_one 0
      handler ← take_handler
      call_or (leave_with 0) handler

    -- `dispatch`: at once inside a handler of this context, if it is not stopped, else by `post`. A
    -- failed precondition ends the process where contracts are on.
    unfoldable pub dispatch : Build → H → M (Context H W) (Unit {0})
    dispatch b h c =
        let inline = env.call (posted h) c in
        if c.is_current
        then (if contracts_enabled b && c.is_stopped then terminated else inline)
        else returned (post h c) tt
