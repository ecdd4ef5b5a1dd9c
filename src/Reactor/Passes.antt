-- ===== src/Reactor/Passes.antt =====
-- Whoever has a handler in the epoll reactor is watched for what it asks for.
use svarog_io.Common.{
  ℕ, suc, ◌≡◌, sym, ◌∙◌, List, [], ◌∷◌, none, some, arith, Option-cases, inl, inr, Bool-cases,
  ℕ_discrete, ◌⊎◌,
}
use mathlib.Core.Path.{subst}
use svarog_io.Common.Maps.{find, erase_key, find-erase_key}
use svarog_io.Reactor.Operations.{Events}
use svarog_io.Reactor.Epoll.{
  Reactor, Epoll, FdData, returned, threw, do_run_one, do_stop, deliver, error_of,
}
use svarog_io.Reactor.Watching.{
  Watched, Command, registers, unregisters, modifies, stops, step, run, Reachable,
  register-Reachable,
}
use svarog_io.Reactor.Changing.{unregister-Reachable, modify-Reachable}

-- A call, or a pass of `run_one` with its time-out.
pub data Action {ℓ} (H : Type ℓ) : Type ℓ where
  commands : Command H → Action H
  passes : ℕ → Action H

module _ {ℓ} {H W : Type ℓ} (epoll : Epoll H W) where
  unfoldable pub act : Action H → Reactor H W → Reactor H W
  unfolding step do_run_one
  act (commands c) r = step epoll c r
  act (passes t) r = elim (do_run_one epoll t r) [ returned a ↦ a.0 | threw e a ↦ a.0 ]

  unfoldable pub act_all : List (Action H) → Reactor H W → Reactor H W
  unfolding act
  act_all [] r = r
  act_all (a ∷ rest) r = act_all rest (act a r)

  -- A handler that is called makes calls of the reactor, and does nothing else to it.
  unfoldable pub IsProgram : Type ℓ
  unfolding run
  IsProgram =
      (h : H) (code : ℕ) (r : Reactor H W)
      → (cs : List (Command H)) × (epoll.call h code r ≡ run epoll cs r)

module _ {ℓ} {H W : Type ℓ} (epoll : Epoll H W) (w : Watched epoll) where
  run-Reachable :
      (cs : List (Command H)) (r : Reactor H W)
      → Reachable epoll w r
      → Reachable epoll w (run epoll cs r)
  unfolding run step do_stop Reachable
  run-Reachable [] r ok = ok
  run-Reachable (registers fd ops h ∷ cs) r ok =
      run-Reachable cs _ (register-Reachable epoll w fd ops h r ok)
  run-Reachable (unregisters fd ∷ cs) r ok =
      run-Reachable cs _ (unregister-Reachable epoll w fd r ok)
  run-Reachable (modifies fd ops ∷ cs) r ok =
      run-Reachable cs _ (modify-Reachable epoll w fd ops r ok)
  run-Reachable (stops ∷ cs) r ok = run-Reachable cs _ ok

  error_of_keeps :
      (fd g : ℕ) (e : Events) (x : W) → w.watching (error_of epoll fd e x).0 g ≡ w.watching x g
  unfolding error_of
  error_of_keeps fd g e x = ground (arith, w.so_error_keeps fd g x)

  erased :
      (fd : ℕ) (e : Events) (r : Reactor H W)
      → Reachable epoll w r
      → Reachable epoll w
          (record r { handlers = erase_key fd r.handlers; world = (error_of epoll fd e r.world).0 })
  unfolding Reachable
  erased fd e r ok g d there' = elim (ℕ_discrete fd g) [
    | yes same ↦ absurd (ground (arith, same, there', find-erase_key fd g r.handlers))
    | no other ↦
        let (e', at, asks) =
          ok g d (ground (arith, other, there', find-erase_key fd g r.handlers)) in
        (e', error_of_keeps fd g e r.world ∙ at, asks)
  ]

  deliver_absent :
      (fd : ℕ) (e : Events) (es : List (ℕ × Events)) (r : Reactor H W)
      → find fd r.handlers ≡ none
      → deliver epoll ((fd, e) ∷ es) r ≡ deliver epoll es r
  unfolding deliver
  deliver_absent fd e es r absent = ground (arith, absent)

  deliver_there :
      (fd : ℕ) (e : Events) (es : List (ℕ × Events)) (d : FdData H) (r : Reactor H W)
      → find fd r.handlers ≡ some d
      → let after = deliver epoll es (
          epoll.call d.handler (error_of epoll fd e r.world).1 (record r {
            handlers = erase_key fd r.handlers;
            world = (error_of epoll fd e r.world).0;
          })) in
        deliver epoll ((fd, e) ∷ es) r ≡ (after.0, suc after.1)
  unfolding deliver
  deliver_there fd e es d r there = ground (arith, there)

  deliver-Reachable :
      IsProgram epoll
      → (es : List (ℕ × Events)) (r : Reactor H W) → Reachable epoll w r
      → Reachable epoll w (deliver epoll es r).0
  unfolding IsProgram
  deliver-Reachable programs [] r ok = unfold deliver in ok
  deliver-Reachable programs ((fd, e) ∷ es) r ok = elim (Option-cases (find fd r.handlers)) [
    | inl absent ↦
        subst (λ x. Reachable epoll w x.0) (sym (deliver_absent fd e es r absent))
          (deliver-Reachable programs es r ok)
    | inr (d, there) ↦
        let gone : Reactor H W = record r {
          handlers = erase_key fd r.handlers;
          world = (error_of epoll fd e r.world).0;
        } in
        let code = (error_of epoll fd e r.world).1 in
        let (cs, same) = programs d.handler code gone in
        subst (λ x. Reachable epoll w x.0) (sym (deliver_there fd e es d r there))
          (deliver-Reachable programs es (epoll.call d.handler code gone)
            (subst (Reachable epoll w) (sym same) (run-Reachable cs gone (erased fd e r ok))))
  ]

  pass_state :
      (t : ℕ) (r : Reactor H W)
      → let waited = record r { world = (epoll.wait t r.world).0 } in
        (act epoll (passes t) r ≡ r)
        ⊎ ((act epoll (passes t) r ≡ waited)
            ⊎ ((es : List (ℕ × Events)) × (act epoll (passes t) r ≡ (deliver epoll es waited).0)))
  unfolding act do_run_one
  pass_state t r = elim (Bool-cases r.is_stopped) [
    | inl off ↦ inl (ground (arith, off))
    | inr on ↦ elim (Option-cases (epoll.wait t r.world).1) [
      | inl failed ↦ inr (inl (ground (arith, on, failed)))
      | inr (es, got) ↦ inr (inr (es, ground (arith, on, got)))
    ]
  ]

  waited-Reachable :
      (t : ℕ) (r : Reactor H W)
      → Reachable epoll w r
      → Reachable epoll w (record r { world = (epoll.wait t r.world).0 })
  unfolding Reachable
  waited-Reachable t r ok g d there =
      let (e, at, asks) = ok g d there in (e, w.wait_keeps t g r.world ∙ at, asks)

  act-Reachable :
      IsProgram epoll
      → (a : Action H) (r : Reactor H W) → Reachable epoll w r
      → Reachable epoll w (act epoll a r)
  act-Reachable programs (commands c) r ok = unfold act run in run-Reachable (c ∷ []) r ok
  act-Reachable programs (passes t) r ok = elim (pass_state t r) [
    | inl same ↦ subst (Reachable epoll w) (sym same) ok
    | inr (inl waited) ↦ subst (Reachable epoll w) (sym waited) (waited-Reachable t r ok)
    | inr (inr (es, served)) ↦ subst (Reachable epoll w) (sym served) (
        deliver-Reachable programs es (record r { world = (epoll.wait t r.world).0 })
          (waited-Reachable t r ok))
  ]

  act_all-Reachable :
      IsProgram epoll
      → (actions : List (Action H)) (r : Reactor H W) → Reachable epoll w r
      → Reachable epoll w (act_all epoll actions r)
  unfolding act_all
  act_all-Reachable programs [] r ok = ok
  act_all-Reachable programs (a ∷ rest) r ok =
      act_all-Reachable programs rest (act epoll a r) (act-Reachable programs a r ok)

  -- The system watches for what registrations ask for: if handlers do nothing to the reactor but to
  -- call it, and the system keeps the promises of `Watched`, then after any history of calls and
  -- passes of a reactor that starts without handlers, whichever calls failed, every descriptor that
  -- has a handler is watched: for input exactly if its operations in the table have `read`, for output
  -- exactly if they have `write`, and edge-triggered exactly if the reactor is.
  pub handlers_watched :
      IsProgram epoll
      → (actions : List (Action H)) (r : Reactor H W) → r.handlers ≡ []
      → (fd : ℕ) (d : FdData H)
      → let after = act_all epoll actions r in
        find fd after.handlers ≡ some d
        → (e : Events) × (w.watching after.world fd ≡ some e)
          × (e.input ≡ d.operations.read)
          × (e.output ≡ d.operations.write)
          × (e.edge ≡ after.edge_triggered)
  unfolding Reachable find
  handlers_watched programs actions r empty fd d there =
      let (e, at, asks) =
        act_all-Reachable programs actions r (λ g v h. absurd (ground (arith, empty, h))) fd d
          there in
      (e, at, asks.0, asks.1, asks.2)
