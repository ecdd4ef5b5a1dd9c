-- ===== src/Network/Socket/Throwing.antt =====
-- The overloads of `basic_socket` without `t_ec`, which throw a `std::system_error`.
use svarog_io.Common.{ℕ, Bool, Option, none, some}
use svarog_io.Contracts.{Checked, passed, terminated}
use svarog_io.Network.Protocol.{Protocol}
use svarog_io.Network.Socket.Operations.{
  Os, Endpoints, Socket, SocketOption, ShutdownType, WaitType, Error, Operation, Result, done,
  system_error, opening, closing, assigning, binding, asking_local_endpoint, shutting_down,
  setting_option, getting_option, setting_non_blocking, waiting, open_socket, close, assign, bind,
  local_endpoint, shutdown, set_option, get_option, set_non_blocking, wait,
}

-- `if (ec) throw std::system_error(ec, operation)`, with what the call has changed.
unfoldable pub or_throw {ℓ κ} :
    {W : Type ℓ} {A : Type κ} → Operation → W × A × Option Error → W × A × Result (Unit {0})
or_throw operation (w, a, none) = (w, a, done tt)
or_throw operation (w, a, some e) = (w, a, system_error e operation)

module _ {ℓ} {E W : Type ℓ} (os : Os E W) where
  unfoldable pub open_or_throw : Protocol → Socket → W → W × Socket × Result (Unit {0})
  unfolding or_throw open_socket
  open_or_throw p s w = or_throw opening (open_socket os p s w)

  unfoldable pub close_or_throw : Socket → W → W × Socket × Result (Unit {0})
  unfolding or_throw close
  close_or_throw s w = or_throw closing (close os s w)

  unfoldable pub assign_or_throw : Protocol → Option ℕ → Socket → W → W × Socket × Result (Unit {0})
  unfolding or_throw assign
  assign_or_throw p handle s w = or_throw assigning (assign os p handle s w)

  unfoldable pub bind_or_throw : Endpoints E → E → Socket → W → W × Socket × Result (Unit {0})
  unfolding or_throw bind
  bind_or_throw es e s w = or_throw binding (bind os es e s w)

  unfoldable pub local_endpoint_or_throw :
      Endpoints E → Socket → W → Checked (W × E × Result (Unit {0}))
  unfolding or_throw local_endpoint
  local_endpoint_or_throw es s w = elim (local_endpoint os es s w) [
    | passed r ↦ passed (or_throw asking_local_endpoint r)
    | terminated ↦ terminated
  ]

  unfoldable pub shutdown_or_throw : ShutdownType → Socket → W → W × Socket × Result (Unit {0})
  unfolding or_throw shutdown
  shutdown_or_throw what s w = or_throw shutting_down (shutdown os what s w)

  unfoldable pub set_option_or_throw : SocketOption → Socket → W → W × Socket × Result (Unit {0})
  unfolding or_throw set_option
  set_option_or_throw o s w = or_throw setting_option (set_option os o s w)

  unfoldable pub get_option_or_throw :
      SocketOption → Socket → W → W × SocketOption × Result (Unit {0})
  unfolding or_throw get_option
  get_option_or_throw o s w = or_throw getting_option (get_option os o s w)

  unfoldable pub set_non_blocking_or_throw : Bool → Socket → W → W × Socket × Result (Unit {0})
  unfolding or_throw set_non_blocking
  set_non_blocking_or_throw mode s w = or_throw setting_non_blocking (set_non_blocking os mode s w)

  unfoldable pub wait_or_throw : WaitType → Socket → W → W × Socket × Result (Unit {0})
  unfolding or_throw wait
  wait_or_throw what s w = or_throw waiting (wait os what s w)
