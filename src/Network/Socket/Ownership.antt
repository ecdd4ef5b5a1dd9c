-- ===== src/Network/Socket/Ownership.antt =====
-- Programs that make, use, move and destroy sockets: which object holds which descriptor.
use svarog_io.Common.{ℕ, ◌≡◌, ◌≢◌, Bool, true, false, Option, none, some, if◌then◌else◌, ◌==◌}
use svarog_io.Common.Family.{update}
use svarog_io.Contracts.{Checked, passed, terminated}
use svarog_io.Network.Protocol.{Family, SocketType, IpProtocol, Protocol}
use svarog_io.Network.Socket.Operations.{Os, Socket, release, open_socket, close, assign}
use svarog_io.Network.Socket.Objects.{
  construct, construct_native, move_construct, move_assign, destroy,
}

-- The objects by number, and the state of the operating system.
pub record Sockets {ℓ} (W : Type ℓ) : Type ℓ where
  pub objects : ℕ → Option Socket
  pub world : W

pub data Command : Type 0 where
  making : ℕ → Protocol → Command
  making_native : ℕ → Protocol → Option ℕ → Command
  opening : ℕ → Protocol → Command
  closing : ℕ → Command
  assigning : ℕ → Protocol → Option ℕ → Command
  releasing : ℕ → Command
  making_from : ℕ → ℕ → Command
  moving_from : ℕ → ℕ → Command
  destroying : ℕ → Command

-- What the system is relied on for: a new descriptor was not open, and `close` closes no other.
pub record Kernel {ℓ} {E W : Type ℓ} (os : Os E W) : Type ℓ where
  pub is_live : W → ℕ → Bool
  pub socket_fresh :
      (f : Family) (t : SocketType) (p : IpProtocol) (w : W) (fd : ℕ)
      → (os.socket f t p w).1 ≡ some fd
      → is_live w fd ≡ false
  pub socket_live :
      (f : Family) (t : SocketType) (p : IpProtocol) (w : W) (fd : ℕ)
      → (os.socket f t p w).1 ≡ some fd
      → is_live (os.socket f t p w).0 fd ≡ true
  pub socket_keeps :
      (f : Family) (t : SocketType) (p : IpProtocol) (w : W) (fd : ℕ)
      → is_live w fd ≡ true
      → is_live (os.socket f t p w).0 fd ≡ true
  pub close_keeps :
      (w : W) (fd other : ℕ)
      → fd ≢ other
      → is_live w other ≡ true
      → is_live (os.close (some fd) w).0 other ≡ true

unfoldable pub held {ℓ} : {W : Type ℓ} → Sockets W → ℕ → Option ℕ
held s i = elim (s.objects i) [ none ↦ none | some o ↦ o.socket ]

-- A command on an object, and one that makes an object: nothing happens where there is none, or
-- where there is one already.
abbrev pub on_object {ℓ} :
    {W : Type ℓ} → ℕ → Sockets W → (Socket → Checked (Sockets W)) → Checked (Sockets W)
on_object i s f = elim (s.objects i) [ none ↦ passed s | some o ↦ f o ]

abbrev pub on_free {ℓ} : {W : Type ℓ} → ℕ → Sockets W → Checked (Sockets W) → Checked (Sockets W)
on_free i s made = elim (s.objects i) [ none ↦ made | some o ↦ passed s ]

-- Object `i` after an operation.
abbrev pub changed {ℓ} : {W : Type ℓ} → ℕ → Sockets W → W → Option Socket → Checked (Sockets W)
changed i s w x = passed (record { objects = update s.objects i x; world = w })

-- Objects `i` and `j` after a move assignment.
abbrev pub replaced {ℓ} :
    {W : Type ℓ} → ℕ → ℕ → Sockets W → Checked (W × Socket × Socket) → Checked (Sockets W)
replaced i j s terminated = terminated
replaced i j s (passed (w, o, left)) =
    changed i (record s { objects = update s.objects j (some left) }) w (some o)

module _ {ℓ} {E W : Type ℓ} where
  unfoldable pub step : Os E W → Command → Sockets W → Checked (Sockets W)
  unfolding open_socket close assign release construct construct_native move_construct move_assign
      destroy
  step os (making i p) s = on_free i s (changed i s s.world (some (construct 0 p)))
  step os (making_native i p h) s =
      on_free i s (changed i s s.world (some (construct_native 0 p h)))
  step os (opening i p) s =
      on_object i s (λ o. let r = open_socket os p o s.world in changed i s r.0 (some r.1))
  step os (closing i) s =
      on_object i s (λ o. let r = close os o s.world in changed i s r.0 (some r.1))
  step os (assigning i p h) s =
      on_object i s (λ o. let r = assign os p h o s.world in changed i s r.0 (some r.1))
  step os (releasing i) s = on_object i s (λ o. changed i s s.world (some (release o).0))
  step os (making_from i j) s = on_free i s (
      on_object j s (λ source.
        let (o, left) = move_construct source in
        changed i (record s { objects = update s.objects j (some left) }) s.world (some o)))
  step os (moving_from i j) s =
      if i == j
      then passed s
      else on_object i s (λ target.
        on_object j s (λ source. replaced i j s (move_assign os target source s.world)))
  step os (destroying i) s = on_object i s (λ o. changed i s (destroy os o s.world) none)
