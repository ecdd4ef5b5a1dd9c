-- ===== src/Network/Socket/Commands.antt =====
-- One command of a program of socket operations keeps the owners of descriptors apart.
use svarog_io.Common.{
  ℕ, ◌≡◌, ◌≢◌, refl, Bool, true, false, Option, none, some, if◌then◌else◌, ◌==◌, arith, ◌∙◌,
}
use svarog_io.Common.Family.{update}
use svarog_io.Contracts.{Checked, passed, terminated}
use svarog_io.Network.Protocol.{Protocol}
use svarog_io.Network.Socket.Operations.{Error, Os, Socket, is_open, release, close, assign}
use svarog_io.Network.Socket.Objects.{
  construct, construct_native, move_construct, move_assign, destroy,
}
use svarog_io.Network.Socket.Ownership.{
  Sockets, Command, Kernel, held, step, making, making_native, opening, closing, assigning,
  releasing, making_from, moving_from, destroying, replaced,
}
use svarog_io.Network.Socket.Exclusive.{
  Owned, Allowed, IsSpare, handle_of, put, held-object, held-update, open-Owned, close-Owned,
}

module _ {ℓ} {E W : Type ℓ} (os : Os E W) (k : Kernel os) where
  Owned-congr :
      (s t : Sockets W)
      → ((j : ℕ) → held t j ≡ held s j)
      → t.world ≡ s.world
      → Owned os k s
      → Owned os k t
  unfolding Owned
  Owned-congr s t same w (live, one) = (
    λ i fd h. ground (arith, w, same i, live i fd, h),
    λ i j fd hi hj. ground (arith, same i, same j, one i j fd, hi, hj),
  )

  drop-Owned :
      (s : Sockets W) (i : ℕ) (x : Option Socket)
      → handle_of os k x ≡ none
      → Owned os k s
      → Owned os k (record s { objects = update s.objects i x })
  unfolding Owned
  drop-Owned s i x gone (live, one) =
      put os k s i x s.world (live, one) (λ fd h. ground (arith, gone, h))
        (λ fd j h hj. ground (arith, gone, h)) (λ j fd d h. live j fd h)

  give-Owned :
      (s : Sockets W) (i : ℕ) (o : Socket)
      → IsSpare os k o.socket s
      → Owned os k s
      → Owned os k (record s { objects = update s.objects i (some o) })
  unfolding Owned IsSpare handle_of
  give-Owned s i o spare (live, one) =
      put os k s i (some o) s.world (live, one) (λ fd h. (spare fd h).0)
        (λ fd j h hj. absurd ((spare fd h).1 j hj)) (λ j fd d h. live j fd h)

  move-Owned :
      (s : Sockets W) (i j : ℕ) (source : Socket)
      → i ≢ j
      → held s j ≡ source.socket
      → Owned os k s
      → Owned os k (record s {
        objects = update (update s.objects j (some (move_construct source).1)) i (some source);
      })
  unfolding Owned IsSpare handle_of move_construct
  move-Owned s i j source d at (live, one) =
      let left = some (move_construct source).1 in
      give-Owned (record s { objects = update s.objects j left }) i source
        (λ fd h. (
          live j fd (at ∙ h),
          λ a ha. ground (arith, held-update os k s j a left s.world, at, h, one j a fd, ha),
        ))
        (drop-Owned s j left refl (live, one))

  replace-Owned :
      (s : Sockets W) (i j : ℕ) (target source : Socket)
      → i ≢ j
      → s.objects i ≡ some target
      → s.objects j ≡ some source
      → Owned os k s
      → Owned os k (record {
        objects = update (update s.objects j (some (move_construct source).1)) i (some source);
        world = (close os target s.world).0;
      })
  unfolding held handle_of
  replace-Owned s i j target source d ati atj own =
      let closed : Sockets W = record {
        objects = update s.objects i none;
        world = (close os target s.world).0;
      } in
      Owned-congr
        (record closed {
          objects =
              update (update closed.objects j (some (move_construct source).1)) i (some source);
        })
        _ (λ a. ground arith) refl
        (move-Owned closed i j source d (ground (arith, atj, d))
          (close-Owned os k s i target none ati refl own))

  same-Owned :
      (s : Sockets W) (i : ℕ) (o : Socket)
      → s.objects i ≡ some o
      → Owned os k s
      → Owned os k (record s { objects = update s.objects i (some o) })
  unfolding held
  same-Owned s i o at own = Owned-congr s _ (λ j. ground (arith, at)) refl own

  assign-Owned :
      (s : Sockets W) (i : ℕ) (o : Socket) (p : Protocol) (h : Option ℕ)
      → s.objects i ≡ some o
      → IsSpare os k h s
      → Owned os k s
      → Owned os k (record {
        objects = update s.objects i (some (assign os p h o s.world).1);
        world = (assign os p h o s.world).0;
      })
  unfolding Owned IsSpare handle_of assign is_open
  assign-Owned s i o p h at spare (live, one) =
      let r = assign os p h o s.world in
      put os k s i (some r.1) r.0 (live, one)
        (λ fd e. ground (arith, spare fd, held-object os k s i o at, live i fd, e))
        (λ fd j e hj. ground (
          arith,
          (λ (q : h ≡ some fd). (spare fd q).1 j),
          held-object os k s i o at,
          one i j fd,
          e,
          hj,
        ))
        (λ j fd d e. ground (arith, live j fd e))

  -- `P` of the state after a step that did not end the process.
  abbrev pub After : (Sockets W → Type 0) → Checked (Sockets W) → Type 0
  After P r = elim r [ passed s ↦ P s | terminated ↦ Unit ]

  After-option :
      (P : Sockets W → Type 0) (x : Option Socket) (a : Checked (Sockets W))
      (f : Socket → Checked (Sockets W))
      → (x ≡ none → After P a)
      → ((o : Socket) → x ≡ some o → After P (f o))
      → After P (elim x [ none ↦ a | some o ↦ f o ])
  After-option P none a f free there = free refl
  After-option P (some o) a f free there = there o refl

  After-if :
      (P : Sockets W → Type 0) (b : Bool) (x y : Checked (Sockets W))
      → After P x
      → (b ≡ false → After P y)
      → After P (if b then x else y)
  After-if P true x y yes_case no_case = yes_case
  After-if P false x y yes_case no_case = no_case refl

  close-gone : (o : Socket) (w : W) → (close os o w).1.socket ≡ none
  unfolding close is_open
  close-gone o w = ground arith

  -- The target is closed, and the process ends if that fails.
  moved-After :
      (s : Sockets W) (i j : ℕ) (target source : Socket)
      → Owned os k (record {
        objects = update (update s.objects j (some (move_construct source).1)) i (some source);
        world = (close os target s.world).0;
      })
      → After (Owned os k) (replaced i j s (move_assign os target source s.world))
  unfolding move_assign move_construct
  moved-After s i j target source own = ended (close os target s.world).2
    where
      ended :
          (error : Option Error)
          → After (Owned os k) (
              replaced i j s (elim error as (λ x. Checked (W × Socket × Socket)) [
                | none ↦
                    passed ((close os target s.world).0, source, record source { socket = none })
                | some e ↦ terminated
              ]))
      ended none = own
      ended (some e) = tt

  pub step-Owned :
      (c : Command) (s : Sockets W)
      → Allowed os k c s
      → Owned os k s
      → After (Owned os k) (step os c s)
  unfolding Allowed step construct construct_native release handle_of IsSpare move_assign destroy
  step-Owned (making i p) s ok own =
      After-option (Owned os k) (s.objects i) _ _
        (λ e. drop-Owned s i (some (construct 0 p)) refl own) (λ o e. own)
  step-Owned (making_native i p h) s ok own =
      After-option (Owned os k) (s.objects i) _ _
        (λ e. give-Owned s i (construct_native 0 p h) ok own) (λ o e. own)
  step-Owned (opening i p) s ok own =
      After-option (Owned os k) (s.objects i) _ _ (λ e. own) (λ o e. open-Owned os k s i o p e own)
  step-Owned (closing i) s ok own =
      After-option (Owned os k) (s.objects i) _ _ (λ e. own)
        (λ o e. close-Owned os k s i o (some (close os o s.world).1) e (close-gone o s.world) own)
  step-Owned (assigning i p h) s ok own =
      After-option (Owned os k) (s.objects i) _ _ (λ e. own)
        (λ o e. assign-Owned s i o p h e ok own)
  step-Owned (releasing i) s ok own =
      After-option (Owned os k) (s.objects i) _ _ (λ e. own)
        (λ o e. drop-Owned s i (some (release o).0) refl own)
  step-Owned (making_from i j) s ok own =
      After-option (Owned os k) (s.objects i) _ _
        (λ free.
          After-option (Owned os k) (s.objects j) _ _ (λ e. own)
            (λ source e.
              move-Owned s i j source (λ same. ground (arith, same, free, e))
                (held-object os k s j source e) own))
        (λ o e. own)
  step-Owned (moving_from i j) s ok own = After-if (Owned os k) (i == j) _ _ own (λ differ.
      After-option (Owned os k) (s.objects i) _ _ (λ e. own)
        (λ target ei.
          After-option (Owned os k) (s.objects j) _ _ (λ e. own)
            (λ source ej.
              moved-After s i j target source
                (replace-Owned s i j target source (ground (arith, differ)) ei ej own))))
  step-Owned (destroying i) s ok own =
      After-option (Owned os k) (s.objects i) _ _ (λ e. own)
        (λ o e. close-Owned os k s i o none e refl own)
