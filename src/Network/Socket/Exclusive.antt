-- ===== src/Network/Socket/Exclusive.antt =====
-- No descriptor has two owners.
use svarog_io.Common.{
  ℕ, ◌≡◌, ◌≢◌, true, false, Option, none, some, if◌then◌else◌, ◌==◌, arith, Option-cases,
  ℕ_discrete, ◌⊎◌, inl, inr,
}
use svarog_io.Common.Family.{update}
use svarog_io.Network.Protocol.{Protocol}
use svarog_io.Network.Socket.Operations.{Os, Socket, is_open, open_socket, close}
use svarog_io.Network.Socket.Ownership.{Sockets, Command, Kernel, held, making_native, assigning}

module _ {ℓ} {E W : Type ℓ} (os : Os E W) (k : Kernel os) where
  -- Held descriptors are open in the system, and no two objects hold the same one.
  unfoldable pub Owned : Sockets W → Type 0
  Owned s =
      ((i fd : ℕ) → held s i ≡ some fd → k.is_live s.world fd ≡ true)
      × ((i j fd : ℕ) → held s i ≡ some fd → held s j ≡ some fd → i ≡ j)

  unfoldable pub handle_of : Option Socket → Option ℕ
  handle_of x = elim x [ none ↦ none | some o ↦ o.socket ]

  pub held-update :
      (s : Sockets W) (i j : ℕ) (x : Option Socket) (w : W)
      → held (record { objects = update s.objects i x; world = w }) j
        ≡ (if i == j then handle_of x else held s j)
  unfolding held handle_of
  held-update s i j x w = ground arith

  -- One object replaced, and the world changed.
  -- One object replaced, and the world changed.
  pub put :
      (s : Sockets W) (i : ℕ) (x : Option Socket) (w : W)
      → Owned s
      → ((fd : ℕ) → handle_of x ≡ some fd → k.is_live w fd ≡ true)
      → ((fd j : ℕ) → handle_of x ≡ some fd → held s j ≡ some fd → i ≡ j)
      → ((j fd : ℕ) → i ≢ j → held s j ≡ some fd → k.is_live w fd ≡ true)
      → Owned (record { objects = update s.objects i x; world = w })
  unfolding Owned
  put s i x w (live, one) new free old = (
    λ j fd h. elim (ℕ_discrete i j) [
      | yes e ↦ ground (arith, held-update s i j x w, new fd, h, e)
      | no d ↦ ground (arith, held-update s i j x w, old j fd, h, d)
    ],
    λ a b fd ha hb. elim (ℕ_discrete i a) [
      | yes ea ↦ elim (ℕ_discrete i b) [
        | yes eb ↦ ground (arith, ea, eb)
        | no db ↦ ground (arith, held-update s i a x w, held-update s i b x w, free fd b, ha, hb)
      ]
      | no da ↦ elim (ℕ_discrete i b) [
        | yes eb ↦ ground (arith, held-update s i a x w, held-update s i b x w, free fd a, ha, hb)
        | no db ↦ ground (arith, held-update s i a x w, held-update s i b x w, one a b fd, ha, hb)
      ]
    ],
  )

  -- What `assign` and the constructor from a native socket are called with: a descriptor that is
  -- open and that no object holds, if any.
  unfoldable pub IsSpare : Option ℕ → Sockets W → Type 0
  IsSpare h s =
      (fd : ℕ) → h ≡ some fd → (k.is_live s.world fd ≡ true) × ((j : ℕ) → held s j ≢ some fd)

  unfoldable pub Allowed : Command → Sockets W → Type 0
  unfolding IsSpare
  Allowed (making_native i p h) s = IsSpare h s
  Allowed (assigning i p h) s = IsSpare h s
  Allowed c s = Unit

  pub held-object :
      (s : Sockets W) (i : ℕ) (o : Socket) → s.objects i ≡ some o → held s i ≡ o.socket
  unfolding held
  held-object s i o at = ground (arith, at)

  -- What `open` does to the world, and where the handle after it comes from.
  open_new :
      (o : Socket) (p : Protocol) (w : W) (fd : ℕ)
      → (open_socket os p o w).1.socket ≡ some fd
      → (o.socket ≡ some fd) × ((open_socket os p o w).0 ≡ w)
        ⊎ (k.is_live w fd ≡ false) × (k.is_live (open_socket os p o w).0 fd ≡ true)
  unfolding open_socket is_open
  open_new o p w fd h = ground (
    arith,
    h,
    k.socket_fresh p.family p.kind p.protocol w fd,
    k.socket_live p.family p.kind p.protocol w fd,
  )

  open_keeps :
      (o : Socket) (p : Protocol) (w : W) (fd : ℕ)
      → k.is_live w fd ≡ true
      → k.is_live (open_socket os p o w).0 fd ≡ true
  unfolding open_socket is_open
  open_keeps o p w fd h = ground (arith, h, k.socket_keeps p.family p.kind p.protocol w fd)

  pub open-Owned :
      (s : Sockets W) (i : ℕ) (o : Socket) (p : Protocol)
      → s.objects i ≡ some o
      → Owned s
      → let r = open_socket os p o s.world in
        Owned (record { objects = update s.objects i (some r.1); world = r.0 })
  unfolding Owned handle_of
  open-Owned s i o p at (live, one) =
      let r = open_socket os p o s.world in
      put s i (some r.1) r.0 (live, one)
        (λ fd h. ground (arith, open_new o p s.world fd h, held-object s i o at, live i fd, h))
        (λ fd j h hj.
          ground (
            arith,
            open_new o p s.world fd h,
            held-object s i o at,
            live j fd hj,
            one i j fd,
            hj,
            h,
          ))
        (λ j fd d h. open_keeps o p s.world fd (live j fd h))

  pub close-Owned :
      (s : Sockets W) (i : ℕ) (o : Socket) (x : Option Socket)
      → s.objects i ≡ some o
      → handle_of x ≡ none
      → Owned s
      → Owned (record { objects = update s.objects i x; world = (close os o s.world).0 })
  unfolding Owned handle_of close is_open
  close-Owned s i o x at gone (live, one) =
      put s i x (close os o s.world).0 (live, one) (λ fd h. ground (arith, gone, h))
        (λ fd j h hj. ground (arith, gone, h))
        (λ j fd d h. elim (Option-cases o.socket) [
          | inl closed ↦ ground (arith, closed, live j fd h)
          | inr (own, opened) ↦ ground (
            arith,
            opened,
            live j fd h,
            held-object s i o at,
            d,
            h,
            one i j fd,
            k.close_keeps s.world own fd,
          )
        ])
