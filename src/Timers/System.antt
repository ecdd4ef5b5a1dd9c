-- ===== src/Timers/System.antt =====
-- svarog/include/svarog/io/system_timer.hpp. Its wait goes to the queue of steady time points.
use svarog_io.Common.{ℕ, ◌+◌, ◌-◌, ◌%◌, ◌^◌, Bool, leb, ◌==◌, if◌then◌else◌}
use svarog_io.TimerQueue.{later_by, TimerQueue, invalid_timer_id, add_timer, cancel_timer}
use svarog_io.Timers.Steady.{time_point_max}

pub record SystemTimer : Type 0 where
  pub expiry : ℕ
  pub timer_id : ℕ

-- `to_steady`, at one reading of each clock. The difference is a 64-bit number too.
unfoldable pub to_steady : ℕ → ℕ → ℕ → ℕ
to_steady sys_now steady_now tp =
    let diff = (tp + 2 ^ 64 - sys_now) % 2 ^ 64 in later_by diff steady_now

unfoldable pub make : SystemTimer
make = record { expiry = time_point_max; timer_id = invalid_timer_id }

unfoldable pub make_at : ℕ → SystemTimer
make_at t = record { expiry = t; timer_id = invalid_timer_id }

unfoldable pub move_construct : SystemTimer → SystemTimer × SystemTimer
move_construct other = (other, record other { timer_id = invalid_timer_id })

unfoldable pub expired : ℕ → SystemTimer → Bool
expired now t = leb t.expiry now

module _ {ℓ} {H : Type ℓ} where
  unfoldable pub cancel : SystemTimer → TimerQueue H → SystemTimer × TimerQueue H × ℕ
  cancel t q =
      if t.timer_id == invalid_timer_id
      then (t, q, 0)
      else let (q', cancelled) = cancel_timer t.timer_id q in
        (record t { timer_id = invalid_timer_id }, q', if cancelled then 1 else 0)

  unfoldable pub destroy : SystemTimer → TimerQueue H → TimerQueue H
  unfolding cancel
  destroy t q = (cancel t q).1

  unfoldable pub move_assign :
      (is_self : Bool)
      → SystemTimer
      → SystemTimer
      → TimerQueue H
      → SystemTimer × SystemTimer × TimerQueue H
  unfolding cancel
  move_assign is_self t other q =
      let (t', q', n) = cancel t q in
      if is_self then (t, other, q) else (
        record t' { expiry = other.expiry; timer_id = other.timer_id },
        record other { timer_id = invalid_timer_id },
        q',
      )

  unfoldable pub expires_at : ℕ → SystemTimer → TimerQueue H → SystemTimer × TimerQueue H
  unfolding cancel
  expires_at tp t q = let (t', q', n) = cancel t q in (record t' { expiry = tp }, q')

  unfoldable pub expires_after : ℕ → ℕ → SystemTimer → TimerQueue H → SystemTimer × TimerQueue H
  unfolding cancel
  expires_after now d t q =
      let (t', q', n) = cancel t q in (record t' { expiry = later_by d now }, q')

  unfoldable pub async_wait : ℕ → ℕ → H → SystemTimer → TimerQueue H → SystemTimer × TimerQueue H
  unfolding cancel to_steady
  async_wait sys_now steady_now h t q =
      let (t', q', n) = cancel t q in
      let (q'', id) = add_timer (to_steady sys_now steady_now t'.expiry) h q' in
      (record t' { timer_id = id }, q'')
