-- ===== src/Reactor/Watching.antt =====
-- Registered handlers of the epoll reactor, and the descriptors that the system watches.
use svarog_io.Common.{
  ℕ, ◌≡◌, ◌≢◌, sym, ◌∙◌, Bool, List, [], ◌∷◌, Option, none, some, Bool-cases, arith, Option-cases,
  inl, inr, ℕ_discrete,
}
use mathlib.Core.Path.{subst}
use svarog_io.Common.Maps.{find, assign, erase_key, find-assign, find-erase_key}
use svarog_io.Reactor.Operations.{IoOperation, Events, to_epoll_events}
use svarog_io.Reactor.Interests.{events_iff}
use svarog_io.Reactor.Epoll.{
  Reactor, Epoll, FdData, Called, returned, threw, wanted, do_register, do_unregister, do_modify,
  do_stop,
}

-- What epoll promises of the watched descriptors, with the events that it was asked to watch each of
-- them for: a call for one descriptor leaves the others alone; what is added or modified is watched
-- for the events given, and a modification that fails changes nothing; and only a successful removal,
-- or one that finds nothing, ends it.
pub record Watched {ℓ} {H W : Type ℓ} (epoll : Epoll H W) : Type ℓ where
  pub watching : W → ℕ → Option Events
  pub add_watches :
      (fd : ℕ) (e : Events) (w : W)
      → (epoll.add fd e w).1 ≡ none
      → watching (epoll.add fd e w).0 fd ≡ some e
  pub add_others :
      (fd g : ℕ) (e : Events) (w : W) → fd ≢ g → watching (epoll.add fd e w).0 g ≡ watching w g
  pub delete_others : (fd g : ℕ) (w : W) → fd ≢ g → watching (epoll.delete fd w).0 g ≡ watching w g
  pub delete_fails :
      (fd error : ℕ) (w : W)
      → (epoll.delete fd w).1 ≡ some error
      → error ≢ epoll.enoent
      → watching (epoll.delete fd w).0 fd ≡ watching w fd
  pub modify_watches :
      (fd : ℕ) (e : Events) (w : W)
      → (epoll.modify fd e w).1 ≡ none
      → watching (epoll.modify fd e w).0 fd ≡ some e
  pub modify_fails :
      (fd error : ℕ) (e : Events) (w : W)
      → (epoll.modify fd e w).1 ≡ some error
      → watching (epoll.modify fd e w).0 fd ≡ watching w fd
  pub modify_others :
      (fd g : ℕ) (e : Events) (w : W) → fd ≢ g → watching (epoll.modify fd e w).0 g ≡ watching w g
  pub wait_keeps : (t g : ℕ) (w : W) → watching (epoll.wait t w).0 g ≡ watching w g
  pub so_error_keeps : (fd g : ℕ) (w : W) → watching (epoll.so_error fd w).0 g ≡ watching w g

-- The events that stand for an operation: input for reading, output for writing, and the mode.
abbrev pub AsksFor : Bool → IoOperation → Events → Type 0
AsksFor edge ops e = (e.input ≡ ops.read) × (e.output ≡ ops.write) × (e.edge ≡ edge)

-- The calls of a reactor, but `run_one`.
pub data Command {ℓ} (H : Type ℓ) : Type ℓ where
  registers : ℕ → IoOperation → H → Command H
  unregisters : ℕ → Command H
  modifies : ℕ → IoOperation → Command H
  stops : Command H

module _ {ℓ} {H W : Type ℓ} (epoll : Epoll H W) where
  -- The state after a call, whether it returned or threw.
  abbrev pub state_of : Called (Reactor H W) → Reactor H W
  state_of (returned r) = r
  state_of (threw e r) = r

  unfoldable pub step : Command H → Reactor H W → Reactor H W
  unfolding do_register do_unregister do_modify do_stop
  step (registers fd ops h) r = state_of (do_register epoll fd ops h r)
  step (unregisters fd) r = state_of (do_unregister epoll fd r)
  step (modifies fd ops) r = state_of (do_modify epoll fd ops r)
  step stops r = do_stop r

  unfoldable pub run : List (Command H) → Reactor H W → Reactor H W
  unfolding step
  run [] r = r
  run (c ∷ cs) r = run cs (step c r)

module _ {ℓ} {H W : Type ℓ} (epoll : Epoll H W) (w : Watched epoll) where
  -- Whoever has a handler is watched for what its registration asks for.
  unfoldable pub Reachable : Reactor H W → Type ℓ
  Reachable r =
      (fd : ℕ) (d : FdData H)
      → find fd r.handlers ≡ some d
      → (e : Events) × (w.watching r.world fd ≡ some e) × AsksFor r.edge_triggered (d.operations) e

  pub wanted-AsksFor :
      (r : Reactor H W) (ops : IoOperation) → AsksFor r.edge_triggered ops (wanted epoll r ops)
  unfolding wanted to_epoll_events
  wanted-AsksFor r ops =
      let (input, output) = events_iff ops in
      elim (Bool-cases r.edge_triggered) [
        | inl edge ↦
            (ground (arith, edge, input), ground (arith, edge, output), ground (arith, edge))
        | inr level ↦
            (ground (arith, level, input), ground (arith, level, output), ground (arith, level))
      ]

  register_taken :
      (fd : ℕ) (ops : IoOperation) (h : H) (r : Reactor H W)
      → (epoll.add fd (wanted epoll r ops) r.world).1 ≡ none
      → do_register epoll fd ops h r
        ≡ returned (record r {
          handlers = assign fd (record { handler = h; operations = ops }) r.handlers;
          world = (epoll.add fd (wanted epoll r ops) r.world).0;
        })
  unfolding do_register
  register_taken fd ops h r taken = ground (arith, taken)

  register_refused :
      (fd : ℕ) (ops : IoOperation) (h : H) (r : Reactor H W) (error : ℕ)
      → (epoll.add fd (wanted epoll r ops) r.world).1 ≡ some error
      → do_register epoll fd ops h r
        ≡ threw error (record r {
          handlers = erase_key fd (assign fd (record { handler = h; operations = ops }) r.handlers);
          world = (epoll.add fd (wanted epoll r ops) r.world).0;
        })
  unfolding do_register
  register_refused fd ops h r error refused = ground (arith, refused)

  pub set_entry :
      (fd g : ℕ) (v d : FdData H) (m : List (ℕ × FdData H))
      → fd ≡ g
      → find g (assign fd v m) ≡ some d
      → v ≡ d
  set_entry fd g v d m same there = ground (arith, same, there, find-assign fd g v m)

  added :
      (fd : ℕ) (v : FdData H) (e : Events) (r : Reactor H W)
      → AsksFor r.edge_triggered (v.operations) e
      → (epoll.add fd e r.world).1 ≡ none
      → Reachable r
      → Reachable
          (record r { handlers = assign fd v r.handlers; world = (epoll.add fd e r.world).0 })
  unfolding Reachable
  added fd v e r asks taken ok g d there = elim (ℕ_discrete fd g) [
    | yes same ↦ (
      e,
      subst (λ x. w.watching (epoll.add fd e r.world).0 x ≡ some e) same
          (w.add_watches fd e r.world taken),
      subst (λ (x : FdData H). AsksFor r.edge_triggered (x.operations) e)
          (set_entry fd g v d r.handlers same there) asks,
    )
    | no other ↦
        let (e', at, asks') =
          ok g d (ground (arith, other, there, find-assign fd g v r.handlers)) in
        (e', w.add_others fd g e r.world other ∙ at, asks')
  ]

  not_added :
      (fd : ℕ) (v : FdData H) (e : Events) (r : Reactor H W)
      → Reachable r
      → Reachable (record r {
        handlers = erase_key fd (assign fd v r.handlers);
        world = (epoll.add fd e r.world).0;
      })
  unfolding Reachable
  not_added fd v e r ok g d there = elim (ℕ_discrete fd g) [
    | yes same ↦ absurd (ground (arith, same, there, find-erase_key fd g (assign fd v r.handlers)))
    | no other ↦
        let (e', at, asks) = ok g d (
          ground (
            arith,
            other,
            there,
            find-erase_key fd g (assign fd v r.handlers),
            find-assign fd g v r.handlers,
          )) in
        (e', w.add_others fd g e r.world other ∙ at, asks)
  ]

  pub register-Reachable :
      (fd : ℕ) (ops : IoOperation) (h : H) (r : Reactor H W)
      → Reachable r
      → Reachable (state_of epoll (do_register epoll fd ops h r))
  register-Reachable fd ops h r ok =
      let v : FdData H = record { handler = h; operations = ops } in
      let e = wanted epoll r ops in
      elim (Option-cases (epoll.add fd e r.world).1) [
        | inl taken ↦
            subst (λ x. Reachable (state_of epoll x)) (sym (register_taken fd ops h r taken))
              (added fd v e r (wanted-AsksFor r ops) taken ok)
        | inr (error, refused) ↦
            subst (λ x. Reachable (state_of epoll x))
              (sym (register_refused fd ops h r error refused)) (not_added fd v e r ok)
      ]
