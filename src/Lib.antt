-- ===== src/Lib.antt =====
-- svarogIO: an asynchronous I/O library in C++23. This library models the parts under
-- svarog/include/svarog and svarog/source/svarog that carry its logic, and proves what they do.
--
-- Parts and files (from the repository's root, a .hpp below is under svarog/include/svarog and a
-- .cpp under svarog/source/svarog):
--   Contracts    core/contracts.hpp: SVAROG_EXPECTS by build configuration.
--   WorkQueue    execution/work_queue.hpp: `WorkQueue` is m_queue and m_stopped; push, pop, try_pop,
--                stop and clear are one step each. WorkQueue/Order has histories of calls,
--                WorkQueue/Blocking the consumers that sleep in pop and the condition variable, and
--                WorkQueue/Blocking/Linear their calls as a history.
--   TimerQueue   io/detail/timer_queue.{hpp,cpp}: the std::set in its order and the id map.
--   Timers       io/steady_timer.hpp and io/system_timer.hpp, over the timer queue; Timers/Firing has
--                a wait under `run` of the context.
--   Strand       execution/strand.hpp: post, dispatch and execute_next as the steps of threads over
--                strand_state, a work queue among it.
--   WorkGuard    execution/work_guard.{hpp,cpp}: guards and the m_work_count of contexts.
--   ThreadPool   execution/thread_pool.{hpp,cpp}: the workers inside run, stop, and threads that post.
--                ThreadPool/Strands has a strand on the pool's executor.
--   Outcome      a state, exceptions and fuel for code that loops.
--   IoContext    io/io_context.{hpp,cpp}: `Context` is its state, with the work queue of handlers and
--                the timer queue; process_timers, run, run_one, poll, poll_one, stop, restart, post
--                and dispatch. IoContext/OnEpoll puts the epoll reactor into the context, with
--                async_wait of network/basic_socket.hpp. IoContext/Threads has any number of threads
--                inside `run`, with the timers, stop and restart, and IoContext/Executor executor_type.
--   Reactor      io/detail/reactor_interface.hpp, platform_config.hpp (Selection), and the reactors of
--                io/detail: epoll_reactor.{hpp,cpp} (Epoll), kqueue_reactor.{hpp,cpp} (Kqueue),
--                select_reactor.hpp (Select) and iocp_reactor.{hpp,cpp} (Iocp). Reactor/Threads has
--                several threads that use one epoll reactor, Reactor/Base reactor_base, Reactor/Lifetimes
--                the constructors and the destructor, and Reactor/Winsock the start of Winsock.
--   Network      Protocol: network/ip/tcp.hpp and udp.hpp. Socket: network/basic_socket.hpp with the
--                options of socket_base.hpp and set_non_blocking of detail/socket_types.hpp.
--                Address: network/ip/address_v4, address_v6 and address, with their texts (Text) and
--                hashes (Hash).
--                Endpoint: network/ip/endpoint.hpp, the union of socket addresses as one record.
--   Examples     Consumers: the second part of examples/work_queue/main.cpp, a client of the work
--                queue with producers and consumers. Contexts and Workers: parts of
--                examples/io_context/main.cpp, whose loop over run_one is in IoContext/Stepping.
--   Common       names of the libraries passed on, number tests, lists, maps with number keys,
--                counting, and families indexed by thread. Tests has the theorems at concrete inputs.
--
-- How they interact: a context pushes what is posted, and the handlers of expired timers, to its
-- work queue, and calls what it pops; timers add and cancel entries of the context's timer queue; a
-- strand schedules itself on an executor, in ThreadPool/Strands on that of a thread pool; a work guard
-- keeps the work count of a context above 0; a socket names its peers by endpoints, which are made
-- from addresses and have a protocol.
--
-- Conventions: numbers are natural numbers; 64-bit ids and counts wrap by `% 2 ^ 64`. Time points
-- are ticks since the earliest time point of the clock; a time point plus a duration wraps too (in
-- C++ a sum out of range is undefined behaviour). Each function on a mutex is one step; atomic
-- accesses are sequentially consistent. Loops take fuel: `process_timers` needs more than the
-- pending timers, the loops over handlers more than the queued items, and each has a theorem that
-- this is enough. The clock, the reactor and the handlers are parameters of IoContext, and the
-- system calls are parameters of Network/Socket and Reactor.
--
-- Not modelled: handlers that call `run` or `poll` while several threads are inside `run`, several
-- threads that use a kqueue or completion port reactor, what the kqueue, select and completion port
-- reactors declare and do not define, and the other example programs.
pub mod Common
pub mod Contracts
pub mod WorkQueue
pub mod TimerQueue
pub mod Timers
pub mod Reactor
pub mod Strand
pub mod WorkGuard
pub mod ThreadPool
pub mod Outcome
pub mod Examples
pub mod IoContext
pub mod Network
pub mod Tests
