-- ===== src/Timers/Firing.antt =====
-- A wait of a steady timer under `run` of its context.
use svarog_io.Common.{
  ℕ, zero, suc, ◌+◌, ◌*◌, ◌≤◌, ◌<◌, ◌≡◌, refl, true, false, [], ◌∷◌, arith, dec_le, ◌∙◌,
}
use svarog_io.Outcome.{returned}
use svarog_io.TimerQueue.{TimerQueue, TimerEntry, invalid_timer_id, add_timer, emplace}
use svarog_io.IoContext.{Context, Env, Item, fired, run, run_loop}
use svarog_io.IoContext.Draining.{Plain}
use svarog_io.Timers.Steady.{SteadyTimer, async_wait}
use svarog_io.Timers.Rounds.{popped, called, called_idle, round_fires, round_waits}

async_wait_only {ℓ} :
    {H : Type ℓ} (t : SteadyTimer) (h : H) (q : TimerQueue H)
    → q.timers ≡ []
    → t.timer_id ≡ invalid_timer_id
    → (async_wait h t q).1.timers ≡ record { id = q.next_id; deadline = t.expiry; handler = h } ∷ []
unfolding async_wait add_timer emplace
async_wait_only t h q no_timers fresh = ground (arith, no_timers, fresh)

module _ {ℓ} {H W : Type ℓ} (env : Env H W) (act : Item H → W → W) (plain : Plain env act)
    (still : (t : ℕ) (c : Context H W) → env.reactor_run_one t c ≡ returned c 0)
    (mono : (i j : ℕ) → i ≤ j → env.clock i ≤ env.clock j) where
  -- What `run` leaves of a context: neither a timer nor a handler, at a reading of the clock that
  -- had reached the deadline.
  abbrev pub Fired : H → ℕ → Context H W → Context H W → Type ℓ
  Fired h deadline c c' =
      (c'.world ≡ act (fired h) c.world)
      × (c'.timers.timers ≡ [])
      × (c'.handlers.items ≡ [])
      × ((k : ℕ) × (deadline ≤ env.clock k) × (c'.reads ≡ k + 2))

  due_now :
      (fuel : ℕ) (c : Context H W) (e : TimerEntry H)
      → c.is_stopped ≡ false
      → c.work_count ≡ 0
      → c.timers.timers ≡ e ∷ []
      → c.handlers.items ≡ []
      → c.handlers.is_stopped ≡ false
      → e.deadline ≤ env.clock c.reads
      → (c' : Context H W) × (run_loop env (suc (suc (suc fuel))) c ≡ returned c' tt)
        × Fired e.handler e.deadline c c'
  due_now fuel c e live free one empty open_queue due = (
    called env act plain still mono c e.handler,
    round_fires env act plain still mono fuel c e live free one empty open_queue due,
    (
      unfold called popped in refl,
      called_idle env act plain still mono c e one due,
      unfold called popped in refl,
      (c.reads, due, unfold called popped in omega arith),
    ),
  )

  rounds_fire :
      (n fuel : ℕ) (c : Context H W) (e : TimerEntry H)
      → c.is_stopped ≡ false
      → c.work_count ≡ 0
      → c.timers.timers ≡ e ∷ []
      → c.handlers.items ≡ []
      → c.handlers.is_stopped ≡ false
      → e.deadline ≤ env.clock (c.reads + 2 * n)
      → n + 2 < fuel
      → (c' : Context H W) × (run_loop env fuel c ≡ returned c' tt)
        × Fired e.handler e.deadline c c'
  rounds_fire zero (suc (suc (suc fuel))) c e live free one empty open_queue reached enough =
      due_now fuel c e live free one empty open_queue
        (omega (arith, reached, mono (c.reads + 2 * 0) c.reads (omega arith)))
  rounds_fire (suc n) (suc (suc (suc fuel))) c e live free one empty open_queue reached enough =
      elim (dec_le e.deadline (env.clock c.reads)) [
        | yes due ↦ due_now fuel c e live free one empty open_queue due
        | no early ↦
            let next : Context H W = record c { reads = suc (suc c.reads) } in
            let (c', done, rest) =
              rounds_fire n (suc (suc fuel)) next e live free one empty open_queue
                (omega
                  (arith, reached, mono (c.reads + 2 * suc n) (next.reads + 2 * n) (omega arith)))
                (omega (arith, enough)) in
            (
              c',
              round_waits env act plain still mono (suc fuel) c e live free one empty (omega arith)
                  ∙ done,
              rest,
            )
      ]
  rounds_fire n zero c e live free one empty open_queue reached enough = absurd (omega arith)
  rounds_fire n (suc zero) c e live free one empty open_queue reached enough = absurd (omega arith)
  rounds_fire n (suc (suc zero)) c e live free one empty open_queue reached enough =
      absurd (omega arith)

  -- A wait ends: on a context that is not stopped and has neither handlers, timers nor work guards,
  -- over plain handlers, an idle reactor and a clock that never goes back, when a timer has begun to
  -- wait and the clock reaches its expiry within some number of rounds of two readings each, `run`
  -- with more fuel than these rounds and two returns; it has called the timer's handler once, at a
  -- reading of the clock that had reached the expiry, and has left no timer and no handler behind.
  pub wait_fires :
      (n fuel : ℕ) (c : Context H W) (t : SteadyTimer) (h : H)
      → c.is_stopped ≡ false
      → c.work_count ≡ 0
      → c.timers.timers ≡ []
      → c.handlers.items ≡ []
      → c.handlers.is_stopped ≡ false
      → t.timer_id ≡ invalid_timer_id
      → t.expiry ≤ env.clock (c.reads + 2 * n)
      → n + 2 < fuel
      → (c' : Context H W) × (run env fuel (record c { timers = (async_wait h t c.timers).1 })
          ≡ returned c' tt)
        × Fired h t.expiry c c'
        × (c'.is_current ≡ false)
  wait_fires n fuel c t h live free no_timers empty open_queue fresh reached enough =
      let waits : Context H W = record c {
        is_current = true;
        timers = (async_wait h t c.timers).1;
      } in
      let e : TimerEntry H = record { id = c.timers.next_id; deadline = t.expiry; handler = h } in
      let (c', done, rest) =
        rounds_fire n fuel waits e live free (async_wait_only t h c.timers no_timers fresh) empty
          open_queue reached enough in
      (record c' { is_current = false }, unfold run in ground (arith, done), rest, refl)
