-- ===== src/Network/Socket/Failures.antt =====
-- What a failed constructor and a reopened socket leave behind.
use svarog_io.Common.{ℕ, ◌≡◌, true, false, none, some, arith}
use svarog_io.Network.Protocol.{Protocol}
use svarog_io.Network.Socket.Operations.{
  Os, Socket, is_open, open_socket, close, error_unless, Endpoints, system, system_error, binding,
  bind,
}
use svarog_io.Network.Socket.Objects.{construct, construct_open, construct_bound}
use svarog_io.Network.Socket.Ownership.{Kernel}

module _ {ℓ} {E W : Type ℓ} (os : Os E W) where
  -- The constructor from an endpoint leaks the descriptor that it opened when `bind` fails: it
  -- throws the error of `bind`, so that there is no object to close the descriptor, and the
  -- descriptor is still open in the system, given that a failed `bind` closes none.
  pub bind_failure_leaks :
      (k : Kernel os) (es : Endpoints E) (context : ℕ) (p : Protocol) (e : E) (w : W) (fd : ℕ)
      → let q = es.protocol_of e in
        let made = os.socket q.family q.kind q.protocol w in
        let bound = os.bind (some fd) e (es.size e) made.0 in
        made.1 ≡ some fd
        → bound.1 ≡ false
        → (k.is_live made.0 fd ≡ true → k.is_live bound.0 fd ≡ true)
        → (construct_bound os es context p e w
            ≡ (bound.0, system_error (system (os.last_error bound.0)) binding))
          × (k.is_live bound.0 fd ≡ true)
  unfolding construct_bound construct_open construct open_socket bind error_unless is_open
  bind_failure_leaks k es context p e w fd made failed keeps =
      let q = es.protocol_of e in
      (ground (arith, made, failed), keeps (k.socket_live q.family q.kind q.protocol w fd made))

  -- A socket that is closed and opened again still says what `non_blocking` was set to before,
  -- while the system got no call but `close` and `socket`, so that the new descriptor is in
  -- whatever mode `socket` gives.
  pub reopened_mode_stale :
      (p : Protocol) (s : Socket) (w : W) (old fd : ℕ)
      → s.socket ≡ some old
      → let closed = os.close (some old) w in
        let made = os.socket p.family p.kind p.protocol closed.0 in
        made.1 ≡ some fd
        → let c = close os s w in
          open_socket os p c.1 c.0 ≡ (
            made.0,
            record {
              context = s.context;
              protocol = p;
              socket = some fd;
              non_blocking = s.non_blocking;
            },
            none,
          )
  unfolding close open_socket is_open error_unless
  reopened_mode_stale p s w old fd at made = ground (arith, at, made)
