-- ===== src/Tests/Reactors.antt =====
-- An epoll reactor, alone and under a context, over a system that remembers the watched descriptors.
use svarog_io.Common.{
  ℕ, ◌≤◌, ◌≡◌, ◌≢◌, refl, Bool, true, false, List, [], ◌∷◌, none, some, arith, ◌==◌, if◌then◌else◌,
}
use svarog_io.Common.Maps.{find, erase_key}
use svarog_io.Outcome.{M}
use svarog_io.Outcome
use svarog_io.IoContext.{Item, new, run, run_one, poll}
use svarog_io.IoContext.OnEpoll.{EpollOs, Host, env_of, operation_of, async_wait}
use svarog_io.IoContext.OnEpoll.AsyncWait.{run_leaves_async_wait, completion_counted_by_run_one}
use svarog_io.Network.Protocol.{tcp_v4}
use svarog_io.Network.Socket.Operations.{Socket, wait_read}
use svarog_io.Reactor.Operations.{IoOperation, Events, no_operation}
use svarog_io.Reactor.Epoll.{
  Reactor, Epoll, returned, threw, do_register, do_run_one, deliver, error_of,
}
use svarog_io.Reactor.Registering.{one_shot_then_refused, mentions, IsPassive}

unfoldable watches : ℕ → List ℕ → Bool
watches fd [] = false
watches fd (x ∷ xs) = if x == fd then true else watches fd xs

abbrev input_event : Events
input_event = record { input = true; output = false; err = false; hup = false; edge = false }

-- Every wait reports input on descriptor 5; handlers do nothing.
abbrev input_epoll : Epoll ℕ (List ℕ)
input_epoll = record {
  add = λ fd e w. if watches fd w then (w, some 17) else (fd ∷ w, none);
  delete = λ fd w. (w, some 2);
  modify = λ fd e w. (w, none);
  wait = λ t w. (w, some ((5, input_event) ∷ []), 0);
  so_error = λ fd w. (w, 0);
  call = λ h code r. r;
  enoent = 2;
  eintr = 4;
}

abbrev reading : IoOperation
reading = record no_operation { read = true }

abbrev watching : Reactor ℕ (List ℕ)
watching = record { is_stopped = false; edge_triggered = false; handlers = []; world = 5 ∷ [] }

-- The first registration works, and its event calls the handler once.
first_registration :
    do_register input_epoll 5 reading 100 (record watching { world = [] })
    ≡ returned
        (record watching { handlers = (5, record { handler = 100; operations = reading }) ∷ [] })
unfolding do_register watches
first_registration = refl

first_event :
    do_run_one input_epoll 0
      (record watching { handlers = (5, record { handler = 100; operations = reading }) ∷ [] })
    ≡ returned (watching, 1)
unfolding do_run_one
first_event = refl

abbrev armed : Reactor ℕ (List ℕ)
armed = record watching { handlers = (5, record { handler = 100; operations = reading }) ∷ [] }

one_shot_then_refused_example :
    (find 5 watching.handlers ≡ none)
    × (1 ≤ 1)
    × ((r' : Reactor ℕ (List ℕ)) × (do_register input_epoll 5 reading 200 watching ≡ threw 17 r')
        × (find 5 r'.handlers ≡ none)
        × ((other : ℕ) → 5 ≢ other → find other r'.handlers ≡ find other watching.handlers))
unfolding watches deliver mentions error_of IsPassive
one_shot_then_refused_example =
    one_shot_then_refused input_epoll ((5, input_event) ∷ []) armed 5 17 reading 200
      (λ h code r. refl) refl

-- The same system under a context, whose handlers do nothing.
abbrev input_os : EpollOs (List ℕ)
input_os = record {
  add = input_epoll.add;
  delete = input_epoll.delete;
  modify = input_epoll.modify;
  wait = input_epoll.wait;
  so_error = input_epoll.so_error;
  enoent = 2;
  eintr = 4;
  ebadf = 9;
}

abbrev idle_handle : ℕ → ℕ → Host ℕ (List ℕ) → Host ℕ (List ℕ)
idle_handle h code c = c

abbrev no_call : Item ℕ → M (Host ℕ (List ℕ)) (Unit {0})
no_call item c = Outcome.returned c tt

abbrev host : Host ℕ (List ℕ)
host = new (record watching { world = [] })

abbrev client : Socket
client = record { context = 0; protocol = tcp_v4; socket = some 5; non_blocking = false }

-- After `async_wait`.
abbrev waiting_host : Host ℕ (List ℕ)
waiting_host = record host {
  world = record watching { handlers = (5, record { handler = 100; operations = reading }) ∷ [] };
}

run_leaves_async_wait_example :
    (run (env_of input_os idle_handle (λ k. k) no_call) 3 waiting_host
      ≡ Outcome.returned (record waiting_host { is_current = false }) tt)
    × (find 5 waiting_host.world.handlers
        ≡ some (record { handler = 100; operations = operation_of wait_read }))
unfolding async_wait do_register watches
run_leaves_async_wait_example =
    run_leaves_async_wait input_os idle_handle (λ k. k) no_call 3 wait_read 100 client 5 host
      waiting_host refl refl refl refl refl (omega arith)

completion_counted_by_run_one_example :
    let ready : Host ℕ (List ℕ) = record host { reads = 1; world = watching } in
    (poll (env_of input_os idle_handle (λ k. k) no_call) 3 waiting_host ≡ Outcome.returned ready 0)
    × (run_one (env_of input_os idle_handle (λ k. k) no_call) 3 waiting_host
        ≡ Outcome.returned ready 1)
unfolding find erase_key
completion_counted_by_run_one_example =
    completion_counted_by_run_one input_os idle_handle (λ k. k) no_call 3 5 0 input_event
      (record { handler = 100; operations = reading }) (5 ∷ []) waiting_host refl refl refl refl
      (omega arith) refl refl refl refl
