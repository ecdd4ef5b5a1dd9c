-- ===== src/Timers/Waiting.antt =====
-- One wait for each timer: what `cancel`, `async_wait` and moves do to the queue.
use svarog_io.Common.{
  ℕ, ◌+◌, ◌^◌, ◌<◌, ◌≤◌, ◌≡◌, ◌≢◌, refl, inl, inr, true, false, none, arith, leb, ◌==◌,
  if◌then◌else◌, Bool-cases,
}
use svarog_io.TimerQueue.{TimerQueue, add_timer, cancel_timer}
use svarog_io.TimerQueue.Invariant.{Inv, deadline_of, deadline_of-emplace, cancel_timer-Inv}
use svarog_io.TimerQueue.Lifecycle.{is_some, cancel_timer_exact}
use svarog_io.Timers.Steady.{SteadyTimer, cancel, async_wait, move_assign}
use svarog_io.Timers.System
use svarog_io.Timers.System.{SystemTimer, to_steady}

module _ {ℓ} {H : Type ℓ} where
  pub cancel-Inv : (t : SteadyTimer) (q : TimerQueue H) → Inv q → Inv (cancel t q).1
  unfolding cancel
  cancel-Inv t q v = elim (Bool-cases (t.timer_id == 0)) [
    | inl idle ↦ rw idle v
    | inr waiting ↦ rw waiting (cancel_timer-Inv t.timer_id q v)
  ]

  cancel_keeps :
      (t : SteadyTimer) (q : TimerQueue H)
      → ((cancel t q).0.expiry ≡ t.expiry) × ((cancel t q).1.next_id ≡ q.next_id)
  unfolding cancel cancel_timer
  cancel_keeps t q = (ground arith, ground arith)

  cancel_forgets :
      (t : SteadyTimer) (q : TimerQueue H)
      → Inv q
      → (j : ℕ)
      → deadline_of j (cancel t q).1.timers
        ≡ (if t.timer_id == j then none else deadline_of j q.timers)
  unfolding cancel
  cancel_forgets t q v j =
      ground (arith, (cancel_timer_exact t.timer_id q v).1 j, v.fresh 0 (inl refl))

  -- `cancel` returns the number of waits that it cancelled: 1 if the timer's id is pending, else 0.
  -- It takes that wait and no other out of the queue, and a second `cancel` returns 0 and changes
  -- nothing.
  pub cancel_exact :
      (t : SteadyTimer) (q : TimerQueue H)
      → Inv q
      → let (t', q', n) = cancel t q in
        (n ≡ (if is_some (deadline_of t.timer_id q.timers) then 1 else 0))
        × ((j : ℕ)
            → deadline_of j q'.timers ≡ (if t.timer_id == j then none else deadline_of j q.timers))
        × (cancel t' q' ≡ (t', q', 0))
  unfolding cancel
  cancel_exact t q v = (
    ground (arith, (cancel_timer_exact t.timer_id q v).0, v.fresh 0 (inl refl)),
    cancel_forgets t q v,
    ground arith,
  )

  -- After `async_wait` the timer holds the new id and keeps its expiry, its previous wait is out of
  -- the queue, and no other wait that was there has changed.
  pub async_wait_replaces :
      (h : H) (t : SteadyTimer) (q : TimerQueue H) (j : ℕ)
      → Inv q
      → j ≢ q.next_id
      → let (t', q') = async_wait h t q in
        (t'.timer_id ≡ q.next_id)
        × (t'.expiry ≡ t.expiry)
        × (deadline_of j q'.timers ≡ (if t.timer_id == j then none else deadline_of j q.timers))
  unfolding async_wait add_timer
  async_wait_replaces h t q j v other = ground (
    arith,
    cancel_keeps t q,
    cancel_forgets t q v j,
    (cancel-Inv t q v).fresh (cancel t q).1.next_id,
    deadline_of-emplace
        (record { id = (cancel t q).1.next_id; deadline = (cancel t q).0.expiry; handler = h }) j
        (cancel t q).1.timers,
  )

  -- Move assignment from another timer takes its expiry and its wait over, takes the target's own
  -- wait out of the queue and no other, and leaves a source whose `cancel` returns 0 and changes
  -- nothing; assignment to itself changes nothing at all.
  pub move_assign_replaces :
      (t other : SteadyTimer) (q : TimerQueue H)
      → Inv q
      → let (t', other', q') = move_assign false t other q in
        (t' ≡ other)
        × ((j : ℕ)
            → deadline_of j q'.timers ≡ (if t.timer_id == j then none else deadline_of j q.timers))
        × (cancel other' q' ≡ (other', q', 0))
        × (move_assign true t other q ≡ (t, other, q))
  unfolding move_assign
  move_assign_replaces t other q v = (refl, cancel_forgets t q v, ground arith, refl)

-- A system timer waits as long as its clock says: `to_steady` takes a time point that is not past
-- to the steady time point at the same distance, if there is one, so when `elapsed` ticks have gone by on both
-- clocks, the wait is due in the queue exactly if the timer has expired.
pub to_steady_agrees :
    (sys_now steady_now elapsed : ℕ) (t : SystemTimer)
    → sys_now ≤ t.expiry
    → t.expiry < 2 ^ 64
    → steady_now + t.expiry < 2 ^ 64 + sys_now
    → leb (to_steady sys_now steady_now t.expiry) (steady_now + elapsed)
      ≡ System.expired (sys_now + elapsed) t
unfolding to_steady System.expired
to_steady_agrees sys_now steady_now elapsed t ahead in_range fits = ground arith
