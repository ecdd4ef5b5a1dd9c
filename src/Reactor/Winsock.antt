-- ===== src/Reactor/Winsock.antt =====
-- How Winsock is started and cleaned up on Windows: `wsa_initializer` of
-- network/detail/socket_types.hpp, which is constructed when the program starts,
-- `winsock_initializer` of io/detail/iocp_reactor.hpp, which the first constructor of an
-- `iocp_reactor` constructs, and that constructor. The calls of Windows are parameters.
use svarog_io.Common.{
  ℕ, zero, suc, ◌+◌, ◌-◌, ◌≡◌, Bool, true, false, Option, none, some, arith, ◌==◌, if◌then◌else◌,
  Bool-cases, Option-cases, inl, inr,
}
use svarog_io.Reactor.Epoll.{Called, returned, threw}

-- `WSAStartup` with its result, `WSACleanup`, and `CreateIoCompletionPort` for a new port, which
-- gives null with the number of `GetLastError` or the port.
pub record WinsockOs {ℓ} (W : Type ℓ) : Type ℓ where
  pub startup : W → W × ℕ
  pub cleanup : W → W
  pub create_port : W → W × Option ℕ

-- `m_initialized` of the one `wsa_initializer`, whether the static `winsock_initializer` has been
-- constructed, and the state of the system.
pub record Process {ℓ} (W : Type ℓ) : Type ℓ where
  pub initialized : Bool
  pub has_winsock : Bool
  pub world : W

module _ {ℓ} {W : Type ℓ} (os : WinsockOs W) where
  -- The program starts: `wsa_init` is initialized.
  unfoldable pub load : W → Process W
  load w =
      let (w', result) = os.startup w in
      record { initialized = result == 0; has_winsock = false; world = w' }

  -- An object whose constructor throws is not constructed, and the next call tries again.
  unfoldable pub ensure_initialized : Process W → Called (Process W)
  ensure_initialized p =
      let (w, result) = os.startup p.world in
      if p.has_winsock
      then returned p
      else if result == 0
      then returned (record p { has_winsock = true; world = w })
      else threw result (record p { world = w })

  -- `iocp_reactor::iocp_reactor`, behind `ensure_initialized`
  unfoldable pub open_port : Called (Process W) → Called (Process W)
  open_port (threw e p) = threw e p
  open_port (returned p) =
      let (w, error) = os.create_port p.world in
      elim error [
        | none ↦ returned (record p { world = w })
        | some e ↦ threw e (record p { world = w })
      ]

  unfoldable pub construct_iocp : Process W → Called (Process W)
  unfolding ensure_initialized open_port
  construct_iocp p = open_port (ensure_initialized p)

  -- The static objects are destroyed, the later one first.
  unfoldable pub exit : Process W → W
  exit p =
      let w = if p.has_winsock then os.cleanup p.world else p.world in
      if p.initialized then os.cleanup w else w

  abbrev pub process_of : Called (Process W) → Process W
  process_of (returned p) = p
  process_of (threw e p) = p

  -- Constructors of reactors, one after another, whether they throw or not.
  unfoldable pub constructions : ℕ → Process W → Process W
  unfolding construct_iocp
  constructions zero p = p
  constructions (suc k) p = process_of (construct_iocp (constructions k p))

-- What Windows promises: it counts the successful calls, and `WSACleanup` takes one back.
pub record Counts {ℓ} {W : Type ℓ} (os : WinsockOs W) : Type ℓ where
  pub started : W → ℕ
  pub startup_counts :
      (w : W)
      → started (os.startup w).0 ≡ (if (os.startup w).1 == 0 then suc (started w) else started w)
  pub cleanup_counts : (w : W) → started (os.cleanup w) ≡ started w - 1
  pub create_port_keeps : (w : W) → started (os.create_port w).0 ≡ started w

abbrev one_if : Bool → ℕ
one_if b = if b then 1 else 0

module _ {ℓ} {W : Type ℓ} (os : WinsockOs W) (c : Counts os) where
  -- Winsock is started once for each of the two static objects that are there.
  abbrev Balanced : ℕ → Process W → Type 0
  Balanced before p = c.started p.world ≡ before + one_if p.initialized + one_if p.has_winsock

  load-Balanced : (w : W) → Balanced (c.started w) (load os w)
  unfolding load
  load-Balanced w = ground (arith, c.startup_counts w)

  ensure_initialized-Balanced :
      (before : ℕ) (p : Process W)
      → Balanced before p
      → Balanced before (process_of os (ensure_initialized os p))
  unfolding ensure_initialized
  ensure_initialized-Balanced before p v = elim (Bool-cases p.has_winsock) [
    | inl has ↦ ground (arith, has, v)
    | inr none_yet ↦ elim (Bool-cases ((os.startup p.world).1 == 0)) [
      | inl ok ↦ ground (arith, none_yet, ok, v, c.startup_counts p.world)
      | inr failed ↦ ground (arith, none_yet, failed, v, c.startup_counts p.world)
    ]
  ]

  open_port-Balanced :
      (before : ℕ) (r : Called (Process W))
      → Balanced before (process_of os r)
      → Balanced before (process_of os (open_port os r))
  unfolding open_port
  open_port-Balanced before (threw e p) v = v
  open_port-Balanced before (returned p) v = elim (Option-cases (os.create_port p.world).1) [
    | inl made ↦ ground (arith, made, v, c.create_port_keeps p.world)
    | inr (e, failed) ↦ ground (arith, failed, v, c.create_port_keeps p.world)
  ]

  constructions-Balanced :
      (k before : ℕ) (p : Process W) → Balanced before p → Balanced before (constructions os k p)
  unfolding constructions
  constructions-Balanced zero before p v = v
  constructions-Balanced (suc k) before p v =
      let q = constructions os k p in
      open_port-Balanced before (ensure_initialized os q)
        (ensure_initialized-Balanced before q (constructions-Balanced k before p v))

  -- Winsock is cleaned up as often as it was started: over any number of constructions of reactors,
  -- whether the calls fail or not, the program leaves it as it found it.
  pub exit-constructions :
      (k : ℕ) (w : W) → c.started (exit os (constructions os k (load os w))) ≡ c.started w
  unfolding exit
  exit-constructions k w =
      let p = constructions os k (load os w) in
      let v = constructions-Balanced k (c.started w) (load os w) (load-Balanced w) in
      elim (Bool-cases p.has_winsock) [
        | inl has ↦
            ground (arith, has, v, c.cleanup_counts p.world, c.cleanup_counts (os.cleanup p.world))
        | inr none_yet ↦ ground (arith, none_yet, v, c.cleanup_counts p.world)
      ]
