-- ===== src/Tests/Backends.antt =====
-- The choice of a reactor, and the reactors of other systems, with handlers that do nothing.
use mathlib.Core.Option
use svarog_io.Common.{
  ℕ, ◌+◌, ◌≡◌, ◌≢◌, refl, Bool, true, false, ◌||◌, List, [], ◌∷◌, ◌++◌, none, some, inr, ◌↔◌, arith,
}
use svarog_io.Common.Maps.{find}
use svarog_io.Reactor.Operations.{IoOperation, no_operation, to_epoll_events}
use svarog_io.Reactor.Epoll.{returned}
use svarog_io.Reactor.Selection.{
  Predefined, ReactorBackend, platform_reactor, default_rector, is_bsd, is_linux, is_macos,
  is_windows, platform_reactor-default,
}
use svarog_io.Reactor.Selection
use svarog_io.Reactor.Kqueue.{
  KEvent, Kqueue, KqueueOs, second_direction_lost, read_filter, write_filter, reads, writes,
}
use svarog_io.Reactor.Kqueue
use svarog_io.Reactor.Select.{Entry, Selector, Revents, PollOs, poll_fd, is_quiet}
use svarog_io.Reactor.Select
use svarog_io.Reactor.Select.Serving.{run_one_serves}
use svarog_io.Reactor.Interests.{interests_agree}
use svarog_io.Reactor.Iocp.{Iocp, IocpOs, Completion, start_read, do_run_one, read_completes}

abbrev freebsd_macros : Predefined
freebsd_macros = record {
  win32 = false;
  win64 = false;
  linux = false;
  apple = false;
  mach = false;
  freebsd = true;
  openbsd = false;
  netbsd = false;
  dragonfly = false;
  bsd = false;
}

platform_reactor-default_example :
    (default_rector freebsd_macros ≡ Selection.kqueue)
    × (platform_reactor freebsd_macros ≡ Selection.select_poll)
    × ((is_linux freebsd_macros || is_macos freebsd_macros || is_windows freebsd_macros) ≡ false)
unfolding is_bsd
platform_reactor-default_example = (platform_reactor-default freebsd_macros).1 refl

abbrev duplex : IoOperation
duplex = record no_operation { read = true; write = true }

abbrev accepting : IoOperation
accepting = record no_operation { accept = true }

abbrev quiet_kqueue : KqueueOs ℕ (Unit {0})
quiet_kqueue = record {
  change = λ cs w. (w, none);
  wait = λ s ns w. (w, some [], 0);
  call = λ h code bytes k. k;
  eintr = 4;
}

abbrev no_kqueue : Kqueue ℕ (Unit {0})
no_kqueue = record { is_stopped = false; handlers = []; world = tt }

abbrev on_seven : KEvent
on_seven = record { ident = 7; error = false; data_of = 10 }

second_direction_lost_example :
    (k' : Kqueue ℕ (Unit {0})) × (Kqueue.do_register quiet_kqueue 7 duplex 100 no_kqueue
      ≡ returned k')
    × (find 7 k'.handlers ≡ some (record { handler = 100; operations = duplex }))
    × ((Kqueue.deliver quiet_kqueue (on_seven ∷ []) k').1 ≡ 1)
    × (Kqueue.deliver quiet_kqueue
          (on_seven ∷ [])
          (Kqueue.deliver quiet_kqueue (on_seven ∷ []) k').0
        ≡ ((Kqueue.deliver quiet_kqueue (on_seven ∷ []) k').0, 0))
unfolding reads writes Kqueue.IsPassive
second_direction_lost_example =
    second_direction_lost quiet_kqueue 7 duplex 100 no_kqueue on_seven [] (on_seven ∷ []) refl refl
      refl (λ h code bytes k. refl) (refl, tt) (refl, tt)

abbrev no_revents : Revents
no_revents = record { input = false; output = false; err = false; hup = false; nval = false }

abbrev hung_up : Revents
hung_up = record no_revents { hup = true }

-- The second of two descriptors hangs up; a handler is logged with its error flag.
abbrev log_error : ℕ → Bool → List (ℕ × Bool) → List (ℕ × Bool)
log_error h error w = w ++ (h, error) ∷ []

abbrev poll_second : PollOs ℕ (List (ℕ × Bool))
poll_second = record {
  poll = λ fds timeout w. (w, some (1, no_revents ∷ no_revents ∷ hung_up ∷ []), 0);
  read_byte = λ w. w;
  call = λ h error s. record s { world = log_error h error s.world };
  wake_pipe = none;
  eintr = 4;
}

abbrev entry : ℕ → Entry ℕ
entry fd = record { fd = fd; operations = accepting; handler = fd + 100 }

abbrev two_entries : Selector ℕ (List (ℕ × Bool))
two_entries = record { is_stopped = false; descriptors = entry 5 ∷ entry 6 ∷ []; world = [] }

run_one_serves_example :
    Select.do_run_one poll_second 10 two_entries
    ≡ returned
        (record { is_stopped = false; descriptors = entry 5 ∷ []; world = (106, true) ∷ [] }, 1)
unfolding is_quiet
run_one_serves_example =
    (run_one_serves poll_second log_error 10 0 0 no_revents (no_revents ∷ hung_up ∷ []) two_entries
        [] refl refl ((omega arith, tt), (tt, tt)) (λ h error s. refl)).0
      refl

interests_agree_example :
    ((poll_fd (entry 5)).input ≡ (to_epoll_events accepting).input)
    × ((poll_fd (entry 5)).output ≡ (to_epoll_events accepting).output)
    × (((reads accepting ≡ (to_epoll_events accepting).input)
          × (writes accepting ≡ (to_epoll_events accepting).output))
        ↔ ((true ≡ true → false ≡ true) × (false ≡ true → false ≡ true)))
interests_agree_example = interests_agree (entry 5)

-- One operation at a time; a read of 20 bytes completes.
abbrev twenty_bytes : Completion
twenty_bytes = record { ok = true; bytes = 20; key = 1; overlapped = some 40; last_error = 0 }

abbrev one_operation : IocpOs ℕ (Unit {0})
one_operation = record {
  associate = λ socket key w. (w, none);
  acquire = λ w. (w, 40);
  release = λ p w. w;
  receive = λ socket buffer size p w. (w, some 997);
  get_status = λ timeout w. (w, twenty_bytes);
  post = λ key w. w;
  call = λ h code bytes r. r;
  wsa_io_pending = 997;
  wait_timeout = 258;
}

abbrev no_iocp : Iocp ℕ (Unit {0})
no_iocp = record { is_stopped = false; operations = []; world = tt }

read_completes_example :
    (r' : Iocp ℕ (Unit {0})) × (start_read one_operation 7 1000 64 100 no_iocp ≡ returned r')
    × ((q : ℕ) → 40 ≢ q → find q r'.operations ≡ find q [])
    × ((gone : Iocp ℕ (Unit {0})) × (do_run_one one_operation 10 r' ≡ some (returned (gone, 1)))
        × (gone.world ≡ tt)
        × (Option.map (λ op. op.handler) (find 40 gone.operations) ≡ some none))
read_completes_example =
    read_completes one_operation 7 1000 64 10 100 no_iocp tt twenty_bytes (inr refl) refl refl refl
