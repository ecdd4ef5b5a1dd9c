-- ===== src/IoContext/Timeouts.antt =====
-- How long `io_context` lets its reactor wait.
use svarog_io.Common.{
  ℕ, suc, ◌-◌, ◌/◌, ◌≤◌, ◌<◌, ◌≡◌, refl, ◌⊎◌, inl, inr, true, arith, ltb, leb, if◌then◌else◌,
  Bool-cases, Option-cases, min,
}
use svarog_io.Outcome.{returned}
use svarog_io.WorkQueue
use svarog_io.TimerQueue
use svarog_io.IoContext.{
  Context, Env, max_wait, milliseconds_max, ticks_per_ms, calculate_timeout, get_next_timer_timeout,
}

module _ {ℓ} {H W : Type ℓ} (env : Env H W) where
  next_timer_reads :
      (c : Context H W)
      → (c' : Context H W) × (t : ℕ) × (get_next_timer_timeout env c ≡ returned c' t)
        × (c' ≡ record c { reads = c'.reads })
  unfolding get_next_timer_timeout
  next_timer_reads c = elim (Option-cases (TimerQueue.get_next_expiry c.timers)) [
    | inl e ↦ (c, milliseconds_max, rw (e, get_next_timer_timeout), refl)
    | inr (d, e) ↦
        let at : ℕ = env.clock c.reads in
        (
          record c { reads = suc c.reads },
          if leb d at then 0 else (d - at) / ticks_per_ms,
          rw (e, get_next_timer_timeout),
          refl,
        )
  ]

  -- `calculate_timeout` always returns, changes nothing but the number of clock readings, and never
  -- lets the reactor wait longer than `max_wait`; it lets it wait at all only while no handler is
  -- queued and a work guard is held.
  pub calculate_timeout_bounded :
      (c : Context H W)
      → (c' : Context H W) × (t : ℕ) × (calculate_timeout env c ≡ returned c' t)
        × (c' ≡ record c { reads = c'.reads })
        × (t ≤ max_wait)
        × ((t ≡ 0) ⊎ ((WorkQueue.is_idle c.handlers ≡ true) × (0 < c.work_count)))
  unfolding calculate_timeout
  calculate_timeout_bounded c =
      let (c', t, e, same) = next_timer_reads c in
      elim (Bool-cases (WorkQueue.is_idle c.handlers)) [
        | inr busy ↦ (c, 0, ground arith, refl, omega arith, inl refl)
        | inl idle ↦ elim (Bool-cases (ltb 0 c'.work_count)) [
          | inl guarded ↦
              (c', min t max_wait, ground arith, same, omega arith, inr (idle, ground arith))
          | inr free ↦ (c', 0, ground arith, same, omega arith, inl refl)
        ]
      ]
