-- ===== src/Strand/Safety.antt =====
-- What a strand promises in every state that its threads can reach.
use svarog_io.Common.{
  ℕ, ◌≤◌, ◌≡◌, refl, ◌⊎◌, ◌↔◌, true, List, [], ◌∷◌, ◌++◌, arith, ◌∙◌, ap, append-nil,
}
use svarog_io.Common.Family.{total, total-eq-zero}
use svarog_io.Strand.{max_recursion_depth, handling, idle, System, Inside, Reach, can_call}
use svarog_io.Strand.Invariant.{Inv, owns, watches, Reach-Inv}

module _ {ℓ} {H : Type ℓ} where
  -- Two threads never run handlers of one strand at the same time, whatever the interleaving of
  -- any number of threads.
  pub handlers_never_overlap :
      {n : ℕ} {s : System H} (i j : ℕ)
      → Reach n s
      → (s.threads i).drain ≡ handling
      → (s.threads j).drain ≡ handling
      → i ≡ j
  handlers_never_overlap {s} i j r hi hj =
      ground (arith, (Reach-Inv r).named_running i, (Reach-Inv r).named_running j)

  -- Handlers start in the order in which they were queued, each once: the queued ones are those
  -- that have started, in order, followed by those in the queue.
  pub started_in_order : {n : ℕ} {s : System H} → Reach n s → s.queued ≡ s.started ++ s.queue.items
  started_in_order r = (Reach-Inv r).in_order

  -- No handler is left behind: when no thread is inside the strand, no call of `execute_next` waits
  -- in the executor and it has thrown none away, then every queued handler has been started.
  pub none_left_behind :
      {n : ℕ} {s : System H}
      → Reach n s
      → ((i : ℕ) → s.threads i ≡ idle)
      → s.scheduled ≡ 0
      → s.lost ≡ 0
      → s.queued ≡ s.started
  none_left_behind {n} {s} r quiet none_waits none_lost =
      v.in_order ∙ ap (◌++◌ s.started) nothing ∙ append-nil s.started
    where
      v : Inv n s
      v = Reach-Inv r

      nobody : (total owns n s.threads ≡ 0) × (total watches n s.threads ≡ 0)
      nobody = (
        total-eq-zero owns n s.threads (λ i. ground (arith, quiet i)),
        total-eq-zero watches n s.threads (λ i. ground (arith, quiet i)),
      )

      unwatched : (xs : List H) → s.queue.items ≡ xs → xs ≡ []
      unwatched [] e = refl
      unwatched (x ∷ xs) e = absurd (ground (arith, v.watched (λ h. cc), v.one_owner, nobody))

      nothing : s.queue.items ≡ []
      nothing = unwatched s.queue.items refl

  -- `running_in_this_thread` is exact where `dispatch` asks it: outside the strand it says false, and
  -- inside a handler of the strand it says true.
  pub running_in_this_thread_exact :
      {n : ℕ} {s : System H} (i : ℕ)
      → Reach n s
      → can_call (s.threads i).drain ≡ true
      → Inside s i ↔ ((s.threads i).drain ≡ handling)
  running_in_this_thread_exact i r may = (
    λ e. ground (arith, (Reach-Inv r).running_named i e),
    λ e. ground (arith, (Reach-Inv r).named_running i),
  )

  -- Nested `dispatch` calls run at most `max_recursion_depth` deep, and only inside a handler.
  pub dispatch_depth_bounded :
      {n : ℕ} {s : System H} (i : ℕ)
      → Reach n s
      → ((s.threads i).depth ≤ max_recursion_depth)
        × (((s.threads i).drain ≡ handling) ⊎ ((s.threads i).depth ≡ 0))
  dispatch_depth_bounded i r = ground (arith, (Reach-Inv r).depth_fits i)
