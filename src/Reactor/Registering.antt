-- ===== src/Reactor/Registering.antt =====
-- One-shot delivery, and a descriptor that the system watches already.
use svarog_io.Common.{
  ℕ, ◌≤◌, ◌≡◌, ◌≢◌, refl, Bool, true, false, List, [], ◌∷◌, none, some, ◌==◌, if◌then◌else◌, arith,
  length, Option-cases, inl, inr,
}
use svarog_io.Common.Maps.{find, assign, erase_key, find-assign, find-erase_key}
use svarog_io.Reactor.Operations.{IoOperation, Events}
use svarog_io.Reactor.Epoll.{Reactor, Epoll, threw, wanted, do_register, deliver, error_of}

unfoldable pub mentions : ℕ → List (ℕ × Events) → Bool
mentions fd [] = false
mentions fd ((g, e) ∷ es) = let rest = mentions fd es in if g == fd then true else rest

module _ {ℓ} {H W : Type ℓ} (epoll : Epoll H W) where
  -- Handlers that leave the table of handlers alone.
  unfoldable pub IsPassive : Type ℓ
  IsPassive = (h : H) (code : ℕ) (r : Reactor H W) → (epoll.call h code r).handlers ≡ r.handlers

  deliver_one_shot :
      (es : List (ℕ × Events)) (r : Reactor H W) (fd : ℕ)
      → IsPassive
      → (find fd (deliver epoll es r).0.handlers
          ≡ (if mentions fd es then none else find fd r.handlers))
        × ((deliver epoll es r).1 ≤ length es)
  unfolding deliver mentions IsPassive
  deliver_one_shot [] r fd passive = (refl, omega arith)
  deliver_one_shot ((g, e) ∷ es) r fd passive = elim (Option-cases (find g r.handlers)) [
    | inl absent ↦ ground (arith, absent, deliver_one_shot es r fd passive)
    | inr (d, there) ↦
        let gone : Reactor H W = record r {
          handlers = erase_key g r.handlers;
          world = (error_of epoll g e r.world).0;
        } in
        let called = epoll.call d.handler (error_of epoll g e r.world).1 gone in
        ground (
          arith,
          there,
          find-erase_key g fd r.handlers,
          passive d.handler (error_of epoll g e r.world).1 gone,
          deliver_one_shot es called fd passive,
        )
  ]

  -- A registration that the system refuses, as it does for a descriptor that it watches already,
  -- throws the system's error and leaves no handler for the descriptor, not even one that was
  -- registered before, and the handlers of all other descriptors as they were.
  register_again_throws :
      (fd eexist : ℕ) (ops : IoOperation) (h : H) (r : Reactor H W)
      → (epoll.add fd (wanted epoll r ops) r.world).1 ≡ some eexist
      → (r' : Reactor H W) × (do_register epoll fd ops h r ≡ threw eexist r')
        × (find fd r'.handlers ≡ none)
        × ((other : ℕ) → fd ≢ other → find other r'.handlers ≡ find other r.handlers)
  unfolding do_register
  register_again_throws fd eexist ops h r refused =
      let m = assign fd (record { handler = h; operations = ops }) r.handlers in
      (
        record r {
          handlers = erase_key fd m;
          world = (epoll.add fd (wanted epoll r ops) r.world).0;
        },
        ground (arith, refused),
        ground (arith, find-erase_key fd fd m),
        λ other d. ground (
          arith,
          d,
          find-erase_key fd other m,
          find-assign fd other (record { handler = h; operations = ops }) r.handlers,
        ),
      )

  -- Delivery is one-shot, and a new registration after it may be refused: if handlers leave the
  -- table alone, then after the delivery of some events, of which no more handlers are called than
  -- there are events, a descriptor of one of them has no handler and any other has the one it had;
  -- and if the system then refuses to add a descriptor, as it does for one that it watches already,
  -- the registration throws the system's error and leaves no handler for the descriptor, not even
  -- one that was still registered, and those of all others as they were.
  pub one_shot_then_refused :
      (es : List (ℕ × Events)) (r : Reactor H W) (fd eexist : ℕ) (ops : IoOperation) (h : H)
      → IsPassive
      → let s = (deliver epoll es r).0 in
        (epoll.add fd (wanted epoll s ops) s.world).1 ≡ some eexist
        → (find fd s.handlers ≡ (if mentions fd es then none else find fd r.handlers))
          × ((deliver epoll es r).1 ≤ length es)
          × ((r' : Reactor H W) × (do_register epoll fd ops h s ≡ threw eexist r')
              × (find fd r'.handlers ≡ none)
              × ((other : ℕ) → fd ≢ other → find other r'.handlers ≡ find other s.handlers))
  one_shot_then_refused es r fd eexist ops h passive refused =
      let (one, few) = deliver_one_shot es r fd passive in
      (one, few, register_again_throws fd eexist ops h (deliver epoll es r).0 refused)
