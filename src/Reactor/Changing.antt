-- ===== src/Reactor/Changing.antt =====
-- The other calls of the epoll reactor, and the descriptors that the system watches.
use svarog_io.Common.{
  ℕ, ◌≡◌, ◌≢◌, refl, sym, ◌∙◌, Option, none, some, ◌==◌, if◌then◌else◌, arith, Option-cases, inl,
  inr, ℕ_discrete, ◌⊎◌,
}
use mathlib.Core.Path.{subst}
use svarog_io.Common.Maps.{find, assign, erase_key, find-assign, find-erase_key}
use svarog_io.Reactor.Operations.{IoOperation, Events}
use svarog_io.Reactor.Epoll.{Reactor, Epoll, FdData, wanted, do_unregister, do_modify}
use svarog_io.Reactor.Watching.{Watched, AsksFor, state_of, Reachable, wanted-AsksFor, set_entry}

module _ {ℓ} {H W : Type ℓ} (epoll : Epoll H W) (w : Watched epoll) where
  removed :
      (fd : ℕ) (r : Reactor H W)
      → Reachable epoll w r
      → Reachable epoll w
          (record r { handlers = erase_key fd r.handlers; world = (epoll.delete fd r.world).0 })
  unfolding Reachable
  removed fd r ok g d there = elim (ℕ_discrete fd g) [
    | yes same ↦ absurd (ground (arith, same, there, find-erase_key fd g r.handlers))
    | no other ↦
        let (e, at, asks) = ok g d (ground (arith, other, there, find-erase_key fd g r.handlers)) in
        (e, w.delete_others fd g r.world other ∙ at, asks)
  ]

  not_removed :
      (fd error : ℕ) (r : Reactor H W)
      → (epoll.delete fd r.world).1 ≡ some error
      → error ≢ epoll.enoent
      → Reachable epoll w r
      → Reachable epoll w (record r { world = (epoll.delete fd r.world).0 })
  unfolding Reachable
  not_removed fd error r failed known ok g d there =
      let (e, at, asks) = ok g d there in
      elim (ℕ_discrete fd g) [
        | yes same ↦ (
          e,
          subst (λ x. w.watching (epoll.delete fd r.world).0 x ≡ w.watching r.world x) same
                (w.delete_fails fd error r.world failed known)
              ∙ at,
          asks,
        )
        | no other ↦ (e, w.delete_others fd g r.world other ∙ at, asks)
      ]

  unregister_state :
      (fd : ℕ) (r : Reactor H W) (error : Option ℕ)
      → (epoll.delete fd r.world).1 ≡ error
      → let left = record r { world = (epoll.delete fd r.world).0 } in
        let gone : Reactor H W = record left { handlers = erase_key fd r.handlers } in
        state_of epoll (do_unregister epoll fd r)
        ≡ elim error [ none ↦ gone | some e ↦ if e == epoll.enoent then gone else left ]
  unfolding do_unregister
  unregister_state fd r none h = ground (arith, h)
  unregister_state fd r (some e) h = ground (arith, h)

  pub unregister-Reachable :
      (fd : ℕ) (r : Reactor H W)
      → Reachable epoll w r
      → Reachable epoll w (state_of epoll (do_unregister epoll fd r))
  unregister-Reachable fd r ok =
      subst (Reachable epoll w) (sym (unregister_state fd r (epoll.delete fd r.world).1 refl))
        (by_error (epoll.delete fd r.world).1 refl)
    where
      left : Reactor H W
      left = record r { world = (epoll.delete fd r.world).0 }

      gone : Reactor H W
      gone = record left { handlers = erase_key fd r.handlers }

      by_error :
          (error : Option ℕ)
          → (epoll.delete fd r.world).1 ≡ error
          → Reachable epoll w
              (elim error [ none ↦ gone | some e ↦ if e == epoll.enoent then gone else left ])
      by_error none h = removed fd r ok
      by_error (some e) h = elim (ℕ_discrete e epoll.enoent) [
        | yes known ↦ subst (Reachable epoll w) (ground (arith, known)) (removed fd r ok)
        | no unknown ↦
            subst (Reachable epoll w) (ground (arith, unknown)) (not_removed fd e r h unknown ok)
      ]

  -- A modification that failed.
  not_modified :
      (fd error : ℕ) (e : Events) (r : Reactor H W)
      → (epoll.modify fd e r.world).1 ≡ some error
      → Reachable epoll w r
      → Reachable epoll w (record r { world = (epoll.modify fd e r.world).0 })
  unfolding Reachable
  not_modified fd error e r failed ok g d there =
      let (e', at, asks) = ok g d there in
      elim (ℕ_discrete fd g) [
        | yes same ↦ (
          e',
          subst (λ x. w.watching (epoll.modify fd e r.world).0 x ≡ w.watching r.world x) same
                (w.modify_fails fd error e r.world failed)
              ∙ at,
          asks,
        )
        | no other ↦ (e', w.modify_others fd g e r.world other ∙ at, asks)
      ]

  -- One of a descriptor that has no handler.
  modified_alone :
      (fd : ℕ) (e : Events) (r : Reactor H W)
      → find fd r.handlers ≡ none
      → Reachable epoll w r
      → Reachable epoll w (record r { world = (epoll.modify fd e r.world).0 })
  unfolding Reachable
  modified_alone fd e r absent ok g d there =
      let (e', at, asks) = ok g d there in
      elim (ℕ_discrete fd g) [
        | yes same ↦ absurd (ground (arith, same, there, absent))
        | no other ↦ (e', w.modify_others fd g e r.world other ∙ at, asks)
      ]

  -- One that the table follows.
  modified_entry :
      (fd : ℕ) (e : Events) (new : FdData H) (r : Reactor H W)
      → AsksFor r.edge_triggered (new.operations) e
      → (epoll.modify fd e r.world).1 ≡ none
      → Reachable epoll w r
      → Reachable epoll w
          (record r { handlers = assign fd new r.handlers; world = (epoll.modify fd e r.world).0 })
  unfolding Reachable
  modified_entry fd e new r asks done ok g d there = elim (ℕ_discrete fd g) [
    | yes same ↦ (
      e,
      subst (λ x. w.watching (epoll.modify fd e r.world).0 x ≡ some e) same
          (w.modify_watches fd e r.world done),
      subst (λ (x : FdData H). AsksFor r.edge_triggered (x.operations) e)
          (set_entry epoll w fd g new d r.handlers same there) asks,
    )
    | no other ↦
        let (e', at, asks') =
          ok g d (ground (arith, other, there, find-assign fd g new r.handlers)) in
        (e', w.modify_others fd g e r.world other ∙ at, asks')
  ]

  modify_state :
      (fd : ℕ) (ops : IoOperation) (r : Reactor H W)
      → let (world, error) = epoll.modify fd (wanted epoll r ops) r.world in
        let left : Reactor H W = record r { world = world } in
        ((code : ℕ) × (error ≡ some code) × (state_of epoll (do_modify epoll fd ops r) ≡ left))
        ⊎ ((error ≡ none)
            × (((find fd r.handlers ≡ none) × (state_of epoll (do_modify epoll fd ops r) ≡ left))
                ⊎ ((d : FdData H) × (state_of epoll (do_modify epoll fd ops r) ≡ record left {
                  handlers = assign fd (record d { operations = ops }) r.handlers;
                }))))
  unfolding do_modify
  modify_state fd ops r = elim (Option-cases (epoll.modify fd (wanted epoll r ops) r.world).1) [
    | inr (e, failed) ↦ inl (e, failed, ground (arith, failed))
    | inl done ↦ elim (Option-cases (find fd r.handlers)) [
      | inl absent ↦ inr (done, inl (absent, ground (arith, done, absent)))
      | inr (d, there) ↦ inr (done, inr (d, ground (arith, done, there)))
    ]
  ]

  pub modify-Reachable :
      (fd : ℕ) (ops : IoOperation) (r : Reactor H W)
      → Reachable epoll w r
      → Reachable epoll w (state_of epoll (do_modify epoll fd ops r))
  modify-Reachable fd ops r ok =
      let e = wanted epoll r ops in
      elim (modify_state fd ops r) [
        | inl (error, failed, same) ↦
            subst (Reachable epoll w) (sym same) (not_modified fd error e r failed ok)
        | inr (done, inl (absent, same)) ↦
            subst (Reachable epoll w) (sym same) (modified_alone fd e r absent ok)
        | inr (done, inr (d, changed)) ↦ subst (Reachable epoll w) (sym changed) (
            modified_entry fd e (record d { operations = ops }) r (wanted-AsksFor epoll w r ops)
              done ok)
      ]
