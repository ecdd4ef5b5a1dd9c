-- ===== src/IoContext/Expiring.antt =====
-- `process_timers`: expired timers go to the handler queue.
use svarog_io.Common.{
  ℕ, zero, suc, ◌≤◌, ◌<◌, ◌≡◌, refl, inl, inr, Bool, false, List, [], ◌∷◌, ◌++◌, map, arith,
  if◌then◌else◌, Bool-cases, length, ap, ◌∙◌, All, All-map_of, append-nil, append_assoc,
}
use svarog_io.Outcome.{returned}
use svarog_io.WorkQueue.{push_item}
use svarog_io.TimerQueue.{TimerEntry, has_expired, pop_expired, size}
use svarog_io.TimerQueue.Expiry.{pop_expired_first, has_expired_mono}
use svarog_io.IoContext.{Context, Env, Item, fired, process_timers, process_timers_loop}

-- The items that a handler queue takes from expired handlers: none once it is stopped.
abbrev pub accepted_fired {ℓ} : {H : Type ℓ} → Bool → List H → List (Item H)
accepted_fired stopped hs = if stopped then [] else map fired hs

-- The handlers of a list of timers, in its order.
abbrev pub handlers_of {ℓ} : {H : Type ℓ} → List (TimerEntry H) → List H
handlers_of = map (λ e. e.handler)

-- Each of them was due at some reading of the clock among those from the `i`-th to before the `j`-th.
abbrev pub AllDue {ℓ} : {H : Type ℓ} → (ℕ → ℕ) → ℕ → ℕ → List (TimerEntry H) → Type 0
AllDue clock i j = All (λ e. (k : ℕ) × (i ≤ k) × (k < j) × (e.deadline ≤ clock k))

AllDue-wider {ℓ} :
    {H : Type ℓ} (clock : ℕ → ℕ) (i j n : ℕ) (xs : List (TimerEntry H))
    → i ≤ j
    → AllDue clock j n xs
    → AllDue clock i n xs
AllDue-wider clock i j n xs le =
    All-map_of (λ x (k, from, till, due). (k, omega (arith, le), till, due)) xs

module _ {ℓ} {H W : Type ℓ} (env : Env H W) where
  loop_moves :
      (fuel start : ℕ) (c : Context H W)
      → ((k : ℕ) → c.reads ≤ k → start ≤ env.clock k)
      → size c.timers < fuel
      → (c' : Context H W) × (taken : List (TimerEntry H)) × (process_timers_loop env fuel start c
          ≡ returned c' tt)
        × (has_expired start c'.timers ≡ false)
        × (c.timers.timers ≡ taken ++ c'.timers.timers)
        × AllDue env.clock c.reads c'.reads taken
        × (c.reads ≤ c'.reads)
        × (c'.handlers.items
            ≡ c.handlers.items ++ accepted_fired c.handlers.is_stopped (handlers_of taken))
        × (c'.handlers.is_stopped ≡ c.handlers.is_stopped)
        × (c' ≡ record c { reads = c'.reads; timers = c'.timers; handlers = c'.handlers })
  unfolding process_timers_loop push_item size
  loop_moves zero start c mono enough = absurd (omega arith)
  loop_moves (suc fuel) start c mono enough = elim (Bool-cases (has_expired start c.timers)) [
    | inr none_due ↦ (
      c,
      [],
      ground arith,
      none_due,
      refl,
      tt,
      omega arith,
      ground (arith, append-nil c.handlers.items),
      refl,
      refl,
    )
    | inl due ↦ elim (pop_expired_first (env.clock c.reads) c.timers) [
      | inl (idle, _) ↦
          cc (has_expired_mono start (env.clock c.reads) c.timers (mono c.reads (omega arith)) due)
      | inr (x, _, out, rest, early) ↦
          let next : Context H W = record c {
            reads = suc c.reads;
            timers = (pop_expired (env.clock c.reads) c.timers).0;
            handlers = (push_item (fired x.handler) c.handlers).0;
          } in
          let (c', taken, done, quiet, split, due_all, later, items, flag, same) =
            loop_moves fuel start next (λ k le. mono k (omega arith))
              (omega (arith, ap length rest)) in
          (
            c',
            x ∷ taken,
            ground arith,
            quiet,
            rest ∙ ap (λ xs. x ∷ xs) split,
            (
              (c.reads, omega arith, omega (arith, later), early),
              AllDue-wider env.clock c.reads (suc c.reads) c'.reads taken (omega arith) due_all,
            ),
            omega (arith, later),
            ground (
              arith,
              append_assoc c.handlers.items (fired x.handler ∷ []) (map fired (handlers_of taken)),
            ),
            ground arith,
            same,
          )
    ]
  ]

  -- `process_timers` returns, given a clock that never goes back and fuel above the number of pending
  -- timers. It takes timers out from the front of the set, each due at a reading of the clock, until
  -- none is expired at the reading taken at the start, and appends their handlers to the queue in
  -- order, or throws them all away if the queue is stopped. Nothing else of the context changes but the clock readings.
  pub process_timers_moves :
      (fuel : ℕ) (c : Context H W)
      → ((i j : ℕ) → i ≤ j → env.clock i ≤ env.clock j)
      → size c.timers < fuel
      → (c' : Context H W) × (taken : List (TimerEntry H)) × (process_timers env fuel c
          ≡ returned c' tt)
        × (has_expired (env.clock c.reads) c'.timers ≡ false)
        × (c.timers.timers ≡ taken ++ c'.timers.timers)
        × AllDue env.clock c.reads c'.reads taken
        × (c.reads ≤ c'.reads)
        × (c'.handlers.items
            ≡ c.handlers.items ++ accepted_fired c.handlers.is_stopped (handlers_of taken))
        × (c'.handlers.is_stopped ≡ c.handlers.is_stopped)
        × (c' ≡ record c { reads = c'.reads; timers = c'.timers; handlers = c'.handlers })
  unfolding process_timers
  process_timers_moves fuel c mono enough =
      let (c', taken, done, quiet, split, due_all, later, items, flag, same) =
        loop_moves fuel (env.clock c.reads) (record c { reads = suc c.reads })
          (λ k le. mono c.reads k (omega arith)) enough in
      (
        c',
        taken,
        done,
        quiet,
        split,
        AllDue-wider env.clock c.reads (suc c.reads) c'.reads taken (omega arith) due_all,
        omega (arith, later),
        items,
        flag,
        same,
      )
