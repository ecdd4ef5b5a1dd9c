-- ===== src/Timers/Steady.antt =====
-- svarog/include/svarog/io/steady_timer.hpp.
use svarog_io.Common.{ℕ, ◌-◌, ◌^◌, Bool, leb, ◌==◌, if◌then◌else◌}
use svarog_io.TimerQueue.{later_by, TimerQueue, invalid_timer_id, add_timer, cancel_timer}

-- `m_expiry` and `m_timer_id`
pub record SteadyTimer : Type 0 where
  pub expiry : ℕ
  pub timer_id : ℕ

-- `time_point::max()`
abbrev pub time_point_max : ℕ
time_point_max = 2 ^ 64 - 1

-- The three constructors.
unfoldable pub make : SteadyTimer
make = record { expiry = time_point_max; timer_id = invalid_timer_id }

unfoldable pub make_after : ℕ → ℕ → SteadyTimer
make_after now d = record { expiry = later_by d now; timer_id = invalid_timer_id }

unfoldable pub make_at : ℕ → SteadyTimer
make_at t = record { expiry = t; timer_id = invalid_timer_id }

-- The move constructor: the new timer, and the one moved from.
unfoldable pub move_construct : SteadyTimer → SteadyTimer × SteadyTimer
move_construct other = (other, record other { timer_id = invalid_timer_id })

unfoldable pub expired : ℕ → SteadyTimer → Bool
expired now t = leb t.expiry now

module _ {ℓ} {H : Type ℓ} where
  unfoldable pub cancel : SteadyTimer → TimerQueue H → SteadyTimer × TimerQueue H × ℕ
  cancel t q =
      if t.timer_id == invalid_timer_id
      then (t, q, 0)
      else let (q', cancelled) = cancel_timer t.timer_id q in
        (record t { timer_id = invalid_timer_id }, q', if cancelled then 1 else 0)

  -- The destructor, for what it does to the queue.
  unfoldable pub destroy : SteadyTimer → TimerQueue H → TimerQueue H
  unfolding cancel
  destroy t q = (cancel t q).1

  -- The move assignment; `is_self` says that both sides are one object.
  unfoldable pub move_assign :
      (is_self : Bool)
      → SteadyTimer
      → SteadyTimer
      → TimerQueue H
      → SteadyTimer × SteadyTimer × TimerQueue H
  unfolding cancel
  move_assign is_self t other q =
      let (t', q', n) = cancel t q in
      if is_self then (t, other, q) else (
        record t' { expiry = other.expiry; timer_id = other.timer_id },
        record other { timer_id = invalid_timer_id },
        q',
      )

  unfoldable pub expires_at : ℕ → SteadyTimer → TimerQueue H → SteadyTimer × TimerQueue H
  unfolding cancel
  expires_at tp t q = let (t', q', n) = cancel t q in (record t' { expiry = tp }, q')

  unfoldable pub expires_after : ℕ → ℕ → SteadyTimer → TimerQueue H → SteadyTimer × TimerQueue H
  unfolding cancel
  expires_after now d t q =
      let (t', q', n) = cancel t q in (record t' { expiry = later_by d now }, q')

  unfoldable pub async_wait : H → SteadyTimer → TimerQueue H → SteadyTimer × TimerQueue H
  unfolding cancel
  async_wait h t q =
      let (t', q', n) = cancel t q in
      let (q'', id) = add_timer t'.expiry h q' in (record t' { timer_id = id }, q'')
