-- ===== src/WorkQueue/Order.antt =====
-- The order in which a work queue hands out its items, before and after `stop`.
use svarog_io.Common.{
  ◌≡◌, refl, sym, ap, ◌∙◌, true, List, [], ◌∷◌, ◌++◌, some, none, arith, append_assoc, append-nil,
  if◌then◌else◌,
}
use svarog_io.WorkQueue.{
  WorkQueue, Expected, value, unexpected, stopped, push_item, pop, try_pop, stop, clear,
}

-- What the threads do with a queue: a history of calls in the order of the mutex. A `pop` that has
-- to wait stands in the history where it returns.
pub data Call {ℓ} (A : Type ℓ) : Type ℓ where
  pushes : A → Call A
  pops try_pops stops clears : Call A

module _ {ℓ} {A : Type ℓ} where
  -- What one call adds to the accepted items.
  unfoldable pub accepted : WorkQueue A → Call A → List A
  unfolding push_item
  accepted q (pushes a) = if (push_item a q).1 then a ∷ [] else []
  accepted q _ = []

  abbrev pub handed : Expected A → List A
  handed (value a) = a ∷ []
  handed (unexpected e) = []

  -- The items that one call hands out or, for `clear`, throws away.
  unfoldable pub removed : WorkQueue A → Call A → List A
  unfolding try_pop pop
  removed q (pushes a) = []
  removed q pops = elim (pop q) [ none ↦ [] | some (q', r) ↦ handed r ]
  removed q try_pops = handed (try_pop q).1
  removed q stops = []
  removed q clears = q.items

  unfoldable pub after : WorkQueue A → Call A → WorkQueue A
  unfolding push_item try_pop stop pop clear
  after q (pushes a) = (push_item a q).0
  after q pops = elim (pop q) [ none ↦ q | some (q', r) ↦ q' ]
  after q try_pops = (try_pop q).0
  after q stops = stop q
  after q clears = clear q

  unfoldable pub run : WorkQueue A → List (Call A) → WorkQueue A
  unfolding after
  run q [] = q
  run q (c ∷ cs) = run (after q c) cs

  unfoldable pub all_accepted : WorkQueue A → List (Call A) → List A
  unfolding accepted after
  all_accepted q [] = []
  all_accepted q (c ∷ cs) = accepted q c ++ all_accepted (after q c) cs

  unfoldable pub all_removed : WorkQueue A → List (Call A) → List A
  unfolding removed after
  all_removed q [] = []
  all_removed q (c ∷ cs) = removed q c ++ all_removed (after q c) cs

  step-fifo :
      (q : WorkQueue A) (c : Call A) → q.items ++ accepted q c ≡ removed q c ++ (after q c).items
  unfolding accepted removed after push_item pop try_pop stop clear
  step-fifo q (pushes a) = ground (arith, append-nil q.items)
  step-fifo q pops = ground (arith, append-nil q.items)
  step-fifo q try_pops = ground (arith, append-nil q.items)
  step-fifo q stops = append-nil q.items
  step-fifo q clears = refl

  -- First in, first out: over any history of calls, the items at the start followed by the
  -- accepted ones are the items removed, in order, followed by those that are left.
  pub run-fifo :
      (q : WorkQueue A) (cs : List (Call A))
      → q.items ++ all_accepted q cs ≡ all_removed q cs ++ (run q cs).items
  unfolding run all_accepted all_removed
  run-fifo q [] = append-nil q.items
  run-fifo q (c ∷ cs) =
      sym (append_assoc q.items (accepted q c) (all_accepted (after q c) cs))
      ∙ ap (λ (l : List A). l ++ all_accepted (after q c) cs) (step-fifo q c)
      ∙ append_assoc (removed q c) (after q c).items (all_accepted (after q c) cs)
      ∙ ap (◌++◌ (removed q c)) (run-fifo (after q c) cs)
      ∙ sym (append_assoc (removed q c) (all_removed (after q c) cs) (run (after q c) cs).items)

  after_stopped :
      (q : WorkQueue A) (c : Call A)
      → q.is_stopped ≡ true
      → ((after q c).is_stopped ≡ true) × (accepted q c ≡ [])
  unfolding accepted after push_item pop try_pop stop clear
  after_stopped q (pushes a) h = ground arith
  after_stopped q pops h = ground arith
  after_stopped q try_pops h = ground arith
  after_stopped q stops h = ground arith
  after_stopped q clears h = ground arith

  -- A stopped queue stays stopped whatever is called on it: it accepts no item ever again, and
  -- `pop` reports `stopped` at once, also while items are left.
  pub run-stopped :
      (q : WorkQueue A) (cs : List (Call A))
      → q.is_stopped ≡ true
      → ((run q cs).is_stopped ≡ true)
        × (all_accepted q cs ≡ [])
        × (pop (run q cs) ≡ some (run q cs, unexpected stopped))
  unfolding run all_accepted pop
  run-stopped q [] h = ground arith
  run-stopped q (c ∷ cs) h =
      let (still, no_item) = after_stopped q c h in
      let (later, no_items, refused) = run-stopped (after q c) cs still in
      (later, rw (no_item, no_items), refused)
