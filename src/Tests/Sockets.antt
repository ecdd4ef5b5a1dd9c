-- ===== src/Tests/Sockets.antt =====
-- Sockets over a system that numbers its descriptors and refuses every `bind`.
use svarog_io.Common.{
  ℕ, zero, suc, ap, ◌≡◌, ◌≢◌, refl, Bool, true, false, none, some, arith, List, [], ◌∷◌, ◌++◌,
  length,
}
use svarog_io.Network.Protocol.{tcp_v4, udp_v6}
use svarog_io.Network.Socket.Operations.{
  Os, Endpoints, Socket, open_socket, close, is_open, error_unless, system, system_error, binding,
}
use svarog_io.Network.Socket.Objects.{
  move_construct, move_assign, destroy, construct, construct_bound,
}
use svarog_io.Network.Socket.Ownership.{
  step, Sockets, Command, Kernel, held, making, opening, moving_from, destroying,
}
use svarog_io.Network.Socket.Exclusive.{Owned, Allowed}
use svarog_io.Network.Socket.Programs.{RunsTo, finished, continues, RunsTo-Owned}
use svarog_io.Network.Socket.Failures.{bind_failure_leaks, reopened_mode_stale}

-- Which descriptors are open, by number.
unfoldable live : List Bool → ℕ → Bool
live [] fd = false
live (b ∷ w) zero = b
live (b ∷ w) (suc fd) = live w fd

unfoldable close_fd : ℕ → List Bool → List Bool
close_fd fd [] = []
close_fd zero (b ∷ w) = false ∷ w
close_fd (suc fd) (b ∷ w) = b ∷ close_fd fd w

abbrev numbering_os : Os ℕ (List Bool)
numbering_os = record {
  last_error = λ w. 98;
  socket = λ f t p w. (w ++ true ∷ [], some (length w));
  close = λ h w. elim h [ none ↦ (w, false) | some fd ↦ (close_fd fd w, true) ];
  bind = λ h e n w. (w, false);
  getsockname = λ h e n w. (w, true, e, n);
  shutdown = λ h s w. (w, true);
  setsockopt = λ h l n v w. (w, true);
  getsockopt = λ h l n w. (w, true, 1);
  fcntl_getfl = λ h w. (w, some 2);
  fcntl_setfl = λ h n w. (w, true);
  select = λ h s w. (w, true);
  nonblock_bit = 11;
}

abbrev port_endpoints : Endpoints ℕ
port_endpoints = record { empty = 0; protocol_of = λ e. tcp_v4; size = λ e. 16; capacity = 28 }

live_fresh : (w : List Bool) → live w (length w) ≡ false
unfolding live
live_fresh [] = refl
live_fresh (b ∷ w) = live_fresh w

live_new : (w : List Bool) → live (w ++ true ∷ []) (length w) ≡ true
unfolding live
live_new [] = refl
live_new (b ∷ w) = live_new w

live_append : (w : List Bool) (fd : ℕ) → live w fd ≡ true → live (w ++ true ∷ []) fd ≡ true
unfolding live
live_append [] fd h = ground (arith, h)
live_append (b ∷ w) zero h = h
live_append (b ∷ w) (suc fd) h = live_append w fd h

live-close_fd :
    (w : List Bool) (fd other : ℕ)
    → fd ≢ other
    → live w other ≡ true
    → live (close_fd fd w) other ≡ true
unfolding live close_fd
live-close_fd [] fd other d h = h
live-close_fd (b ∷ w) zero zero d h = absurd (d refl)
live-close_fd (b ∷ w) zero (suc other) d h = h
live-close_fd (b ∷ w) (suc fd) zero d h = h
live-close_fd (b ∷ w) (suc fd) (suc other) d h = live-close_fd w fd other (λ e. d (ap suc e)) h

abbrev numbering_kernel : Kernel numbering_os
numbering_kernel = record {
  is_live = live;
  socket_fresh = λ f t p w fd e. ground (arith, e, live_fresh w);
  socket_live = λ f t p w fd e. ground (arith, e, live_new w);
  socket_keeps = λ f t p w fd h. live_append w fd h;
  close_keeps = λ w fd other d h. live-close_fd w fd other d h;
}

abbrev no_sockets : Sockets (List Bool)
no_sockets = record { objects = λ i. none; world = [] }

-- Make, open, move into a second open socket, and destroy.
abbrev script : List Command
script =
    making 0 tcp_v4
    ∷ opening 0 tcp_v4
    ∷ making 1 tcp_v4
    ∷ opening 1 udp_v6
    ∷ moving_from 0 1
    ∷ destroying 1
    ∷ []

abbrev ran : (t : Sockets (List Bool)) × RunsTo numbering_os numbering_kernel no_sockets script t
unfolding step Allowed open_socket close construct move_construct move_assign destroy is_open
    error_unless close_fd
ran = (
  _,
  continues _ tt refl (
      continues _ tt refl (
        continues _ tt refl
          (continues _ tt refl (continues _ tt refl (continues _ tt refl finished))))),
)

no_sockets-Owned : Owned numbering_os numbering_kernel no_sockets
unfolding Owned held
no_sockets-Owned = (λ i fd h. ground (arith, h), λ i j fd h. ground (arith, h))

RunsTo-Owned_example : Owned numbering_os numbering_kernel ran.0
RunsTo-Owned_example =
    RunsTo-Owned numbering_os numbering_kernel no_sockets ran.0 script ran.1 no_sockets-Owned

descriptors_moved :
    (held ran.0 0 ≡ some 1) × (held ran.0 1 ≡ none) × (ran.0.world ≡ false ∷ true ∷ [])
unfolding step Allowed open_socket close construct move_construct move_assign destroy is_open
    error_unless close_fd held
descriptors_moved = (refl, refl, refl)

bind_failure_leaks_example :
    (construct_bound numbering_os port_endpoints 0 tcp_v4 80 []
      ≡ (true ∷ [], system_error (system 98) binding))
    × (live (true ∷ []) 0 ≡ true)
bind_failure_leaks_example =
    bind_failure_leaks numbering_os numbering_kernel port_endpoints 0 tcp_v4 80 [] 0 refl refl
      (λ h. h)

abbrev in_use : Socket
in_use = record { context = 0; protocol = tcp_v4; socket = some 0; non_blocking = true }

reopened_mode_stale_example :
    open_socket numbering_os udp_v6
      (close numbering_os in_use (true ∷ [])).1
      (close numbering_os in_use (true ∷ [])).0
    ≡ (
      false ∷ true ∷ [],
      record { context = 0; protocol = udp_v6; socket = some 1; non_blocking = true },
      none,
    )
unfolding close_fd
reopened_mode_stale_example =
    reopened_mode_stale numbering_os udp_v6 in_use (true ∷ []) 0 1 refl refl
