-- ===== src/Reactor/Lifetimes.antt =====
-- The construction and the end of the system objects of the reactors: the constructor and the
-- destructor of epoll_reactor.cpp, the constructors of kqueue_reactor.cpp and iocp_reactor.cpp, whose
-- destructors are declared only, and the static objects that start Winsock, `winsock_initializer` of
-- iocp_reactor.hpp and `wsa_initializer` of network/detail/socket_types.hpp. The calls of the systems
-- are parameters.
use svarog_io.Common.{
  ℕ, ◌≡◌, Bool, false, not, ◌&&◌, ◌||◌, [], Option, none, some, arith, ◌==◌, inl, inr, Option-cases,
}
use svarog_io.Reactor.Epoll.{Reactor}
use svarog_io.Reactor.Kqueue.{Kqueue}

-- What a constructor does: an object, or the `std::system_error` of a number.
pub data Built {ℓ} (A W : Type ℓ) : Type ℓ where
  built : A → W → Built A W
  refused : ℕ → W → Built A W

-- `epoll_create1` or `kqueue`, which gives a descriptor, or `none` with `errno`; and `close`.
pub record DescriptorOs {ℓ} (W : Type ℓ) : Type ℓ where
  pub create : W → W × Option ℕ × ℕ
  pub close : ℕ → W → W

-- An `epoll_reactor` with its `m_epoll_fd`; -1 is `none`.
pub record EpollObject {ℓ} (H W : Type ℓ) : Type ℓ where
  pub epoll_fd : Option ℕ
  pub reactor : Reactor H W

pub record KqueueObject {ℓ} (H W : Type ℓ) : Type ℓ where
  pub kqueue_fd : Option ℕ
  pub reactor : Kqueue H W

-- What the calls do to the open descriptors.
pub record Opens {ℓ} {W : Type ℓ} (os : DescriptorOs W) : Type ℓ where
  pub is_open : W → ℕ → Bool
  pub create_opens :
      (w : W) (d : ℕ)
      → (os.create w).1 ≡ some d
      → (is_open w d ≡ false) × ((g : ℕ) → is_open (os.create w).0 g ≡ (d == g) || is_open w g)
  pub create_fails :
      (w : W) → (os.create w).1 ≡ none → (g : ℕ) → is_open (os.create w).0 g ≡ is_open w g
  pub close_closes :
      (d : ℕ) (w : W) (g : ℕ) → is_open (os.close d w) g ≡ not (d == g) && is_open w g

module _ {ℓ} {H W : Type ℓ} (os : DescriptorOs W) where
  unfoldable pub construct_epoll : Bool → W → Built (EpollObject H W) W
  construct_epoll edge w =
      let (w', fd, errno) = os.create w in
      elim fd [
        | none ↦ refused errno w'
        | some d ↦
            built
              (record {
                epoll_fd = some d;
                reactor = record {
                  is_stopped = false;
                  edge_triggered = edge;
                  handlers = [];
                  world = w';
                };
              })
              w'
      ]

  unfoldable pub construct_kqueue : W → Built (KqueueObject H W) W
  construct_kqueue w =
      let (w', fd, errno) = os.create w in
      elim fd [
        | none ↦ refused errno w'
        | some d ↦
            built
              (record {
                kqueue_fd = some d;
                reactor = record { is_stopped = false; handlers = []; world = w' };
              })
              w'
      ]

  -- `~epoll_reactor`
  unfoldable pub destruct_epoll : EpollObject H W → W
  destruct_epoll o = elim o.epoll_fd [
    | none ↦ o.reactor.world
    | some d ↦ os.close d o.reactor.world
  ]

  -- A reactor is built, used, and destroyed; if it cannot be built, there is nothing to destroy.
  unfoldable pub lifetime : Bool → (Reactor H W → Reactor H W) → W → W
  unfolding construct_epoll destruct_epoll
  lifetime edge body w = elim (construct_epoll edge w) [
    | refused e w' ↦ w'
    | built o w' ↦ destruct_epoll (record o { reactor = body o.reactor })
  ]

  -- An epoll reactor leaves no descriptor behind, and closes none but its own: if its use opens and
  -- closes nothing, then the same descriptors are open after its lifetime as before, also when the
  -- constructor throws.
  pub lifetime_keeps :
      (o : Opens os) (edge : Bool) (body : Reactor H W → Reactor H W) (w : W)
      → ((r : Reactor H W) (g : ℕ) → o.is_open (body r).world g ≡ o.is_open r.world g)
      → (g : ℕ) → o.is_open (lifetime edge body w) g ≡ o.is_open w g
  unfolding lifetime
  lifetime_keeps o edge body w keeps g = elim (Option-cases (os.create w).1) [
    | inl failed ↦ ground (arith, failed, o.create_fails w failed g)
    | inr (d, made) ↦
        let (fresh, opens) = o.create_opens w d made in
        let r : Reactor H W = record {
          is_stopped = false;
          edge_triggered = edge;
          handlers = [];
          world = (os.create w).0;
        } in
        ground (arith, made, fresh, opens g, keeps r g, o.close_closes d (body r).world g)
  ]
