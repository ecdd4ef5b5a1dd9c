-- ===== src/WorkQueue/Blocking/Wakeups.antt =====
-- Which wake-ups a consumer blocked in `pop()` can rely on.
use svarog_io.Common.{ℕ, ◌<◌, ◌≡◌, ◌≢◌, refl, List, [], ◌∷◌, true, false, arith, length}
use svarog_io.Common.Family.{total, total-pos}
use svarog_io.WorkQueue.{pop_ready, stop}
use svarog_io.WorkQueue.Blocking.{
  asleep, woken, System, test, sleep, stop_store, stop_notify, Reach, at_start, later,
}
use svarog_io.WorkQueue.Blocking.Invariant.{awake, Reach-Inv}

module _ {ℓ} {A : Type ℓ} where
  pos_of_ne_nil : (xs : List A) → xs ≢ [] → 0 < length xs
  pos_of_ne_nil [] h = absurd (h refl)
  pos_of_ne_nil (x ∷ xs) h = omega arith

  -- No push is lost: in every state that consumers and producers can reach, if a consumer sleeps
  -- in `pop` while the queue is not stopped and holds an item, then some consumer has been woken
  -- and is on its way to the queue.
  pub push_never_lost :
      {n : ℕ} {s : System A}
      → Reach n s
      → (i : ℕ) → s.pc i ≡ asleep
      → s.queue.is_stopped ≡ false
      → s.queue.items ≢ []
      → (j : ℕ) × (j < n) × (s.pc j ≡ woken)
  push_never_lost {n} {s} r i sleeps live full =
      let (j, lt, counts) = total-pos awake n s.pc some_awake in (j, lt, ground arith)
    where
      some_awake : 0 < total awake n s.pc
      some_awake =
          omega (arith, (Reach-Inv r).served i sleeps live, pos_of_ne_nil s.queue.items full)

  -- `stop` can be lost: for each of any number of consumers there is a run of the calls `pop` and
  -- `stop` at whose end `stop` has returned, the queue is stopped, the consumer sleeps in `pop`,
  -- and neither it nor another consumer has been woken.
  pub stop_can_be_lost :
      (n i : ℕ)
      → i < n
      → (s : System A) × Reach n s
        × (s.queue.is_stopped ≡ true)
        × (s.notify_due ≡ false)
        × (s.pc i ≡ asleep)
        × ((j : ℕ) → s.pc j ≢ woken)
  unfolding pop_ready stop
  stop_can_be_lost n i lt = (
    _,
    later (later (later (later at_start (test i lt refl refl refl)) stop_store) (stop_notify refl))
        (sleep i lt (ground arith)),
    refl,
    refl,
    ground arith,
    λ j e. ground arith,
  )
