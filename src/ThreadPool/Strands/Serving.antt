-- ===== src/ThreadPool/Strands/Serving.antt =====
-- What a strand promises on a pool that has not been stopped.
use svarog_io.Common.{ℕ, ◌≤◌, ◌≡◌, ◌≢◌, ◌<◌, [], ◌++◌, refl, ap, ◌∙◌, arith, dec_lt}
use svarog_io.Strand.{idle, handling}
use svarog_io.Strand.Safety.{handlers_never_overlap, started_in_order, none_left_behind}
use svarog_io.ThreadPool.{calling, running}
use svarog_io.ThreadPool.Running.{pool_serves, Step-running}
use svarog_io.ThreadPool.Strands.{
  count_next, Joint, Step, inside, submit, refused, take_next, drop_next, beside, Reach, at_start,
  later, next,
}
use svarog_io.ThreadPool.Strands.Projection.{Reach-Split}

module _ {ℓ} {H K : Type ℓ} where
  -- The executor of a pool that runs loses no call.
  step_loses_none :
      {n m : ℕ} {s t : Joint H K}
      → n ≤ m
      → Reach n m s
      → Step n m s t
      → t.pool.phase ≡ running
      → (s.pool.phase ≡ running) × (s.strand.lost ≡ 0 → t.strand.lost ≡ 0)
  step_loses_none few r (inside i lt runs mv same none_lost) p = (p, λ before. none_lost ∙ before)
  step_loses_none few r (submit i lt runs at ok) p = (p, λ before. before)
  step_loses_none few r (refused i lt runs at full) p =
      let (works, is_open, accepts, order) = pool_serves (Reach-Split few r).pool_run p in
      (p, λ before. absurd (ground (arith, full, accepts next)))
  step_loses_none few r (take_next i lt at taken) p = (p, λ before. before)
  step_loses_none few r (drop_next i lt at) p =
      let (works, is_open, accepts, order) = pool_serves (Reach-Split few r).pool_run p in
      (p, λ before. absurd (ground (arith, at, works i)))
  step_loses_none few r (beside st same idles) p = (Step-running p st, λ before. before)

  none_lost :
      {n m : ℕ} {s : Joint H K} → n ≤ m → Reach n m s → s.pool.phase ≡ running → s.strand.lost ≡ 0
  none_lost few at_start p = refl
  none_lost few (later r st) p =
      let (before, keeps) = step_loses_none few r st p in keeps (none_lost few r before)

  -- A strand on a pool serves everything until the pool is stopped: whatever the interleaving of the
  -- workers and of other threads that post to the strand and to the pool, two threads never run
  -- handlers of the strand at the same time, they start in the order in which they were queued, and
  -- no call of `execute_next` is lost: those that wait are in the pool's queue. When that queue is
  -- empty, no worker is in a handler and no other thread is inside a call of the strand, every
  -- handler queued on the strand has been started.
  pub pool_serves_strand :
      {n m : ℕ} {s : Joint H K}
      → n ≤ m
      → Reach n m s
      → s.pool.phase ≡ running
      → ((i j : ℕ)
          → (s.strand.threads i).drain ≡ handling
          → (s.strand.threads j).drain ≡ handling
          → i ≡ j)
        × (s.strand.queued ≡ s.strand.started ++ s.strand.queue.items)
        × (s.strand.lost ≡ 0)
        × (s.strand.scheduled ≡ count_next s.pool.handlers.items)
        × (s.pool.handlers.items ≡ []
            → ((i : ℕ) → i < n → s.pool.pc i ≢ calling)
            → ((i : ℕ) → n ≤ i → s.strand.threads i ≡ idle)
            → s.strand.queued ≡ s.strand.started)
  pool_serves_strand {n} {s = s} few r p =
      let v = Reach-Split few r in
      let unlost = none_lost few r p in
      (
        λ i j hi hj. handlers_never_overlap i j v.strand_run hi hj,
        started_in_order v.strand_run,
        unlost,
        v.counted,
        λ empty away quiet.
            none_left_behind v.strand_run
              (λ i. elim (dec_lt i n) [
                | yes worker ↦ v.outside i worker (away i worker)
                | no beyond ↦ quiet i (omega (arith, beyond))
              ])
              (v.counted ∙ ap count_next empty) unlost,
      )
