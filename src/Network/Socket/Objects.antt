-- ===== src/Network/Socket/Objects.antt =====
-- The construction, the moves and the destruction of sockets.
use svarog_io.Common.{ℕ, false, Option, none, some}
use svarog_io.Contracts.{Checked, passed, terminated}
use svarog_io.Network.Protocol.{Protocol}
use svarog_io.Network.Socket.Operations.{
  Os, Endpoints, Socket, Result, done, system_error, opening, binding, open_socket, close, bind,
}

-- `basic_socket(t_ctx)`: `protocol_type{}` is `default_protocol`.
unfoldable pub construct : ℕ → Protocol → Socket
construct context default_protocol = record {
  context = context;
  protocol = default_protocol;
  socket = none;
  non_blocking = false;
}

-- `basic_socket(t_ctx, t_protocol, t_native_socket)`
unfoldable pub construct_native : ℕ → Protocol → Option ℕ → Socket
construct_native context p handle = record {
  context = context;
  protocol = p;
  socket = handle;
  non_blocking = false;
}

-- The moved socket, and what is left in the source.
unfoldable pub move_construct : Socket → Socket × Socket
move_construct other = (other, record other { socket = none })

module _ {ℓ} {E W : Type ℓ} (os : Os E W) where
  -- `basic_socket(t_ctx, t_protocol)`: when `open` throws there is no object, and no destructor
  -- runs.
  unfoldable pub construct_open : ℕ → Protocol → Protocol → W → W × Result Socket
  unfolding construct open_socket
  construct_open context default_protocol p w =
      let (w', s, error) = open_socket os p (construct context default_protocol) w in
      elim error [ none ↦ (w', done s) | some e ↦ (w', system_error e opening) ]

  -- `basic_socket(t_ctx, t_endpoint)`
  unfoldable pub construct_bound : Endpoints E → ℕ → Protocol → E → W → W × Result Socket
  unfolding construct_open bind
  construct_bound es context default_protocol e w =
      let (w', made) = construct_open context default_protocol (es.protocol_of e) w in
      elim made [
        | system_error error operation ↦ (w', system_error error operation)
        | done s ↦
            let (w'', s', error) = bind os es e s w' in
            elim error [ none ↦ (w'', done s') | some e' ↦ (w'', system_error e' binding) ]
      ]

  -- `*s = std::move(other)` of two objects: the target and the source after it. `close()` throws
  -- when the system reports an error, which ends the process, the operator being noexcept.
  unfoldable pub move_assign : Socket → Socket → W → Checked (W × Socket × Socket)
  unfolding close
  move_assign s other w =
      let (w', s', error) = close os s w in
      elim error [ none ↦ passed (w', other, record other { socket = none }) | some e ↦ terminated ]

  unfoldable pub destroy : Socket → W → W
  unfolding close
  destroy s w = (close os s w).0
