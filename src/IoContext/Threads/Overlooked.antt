-- ===== src/IoContext/Threads/Overlooked.antt =====
-- A post that `has_pending_work` overlooks between its reads.
use svarog_io.Common.{ℕ, zero, suc, ◌<◌, ◌≤◌, ◌≡◌, refl, false, [], ◌∷◌, arith}
use svarog_io.WorkQueue.{push_item}
use svarog_io.TimerQueue.{is_idle}
use svarog_io.TimerQueue
use svarog_io.IoContext.{posted}
use svarog_io.IoContext.Threads.{
  Pc, run_test, count_test, left, Crowd, start, run_on, no_handlers, no_guards, no_timers, work,
  guest_posts, release_guard, Steps, here, later,
}

module _ {ℓ} {H : Type ℓ} where
  -- A context with one guard, and nothing else.
  abbrev pub guarded : Crowd H
  guarded = start [] 1 TimerQueue.new 0

  -- The threads find the queue empty, one after another.
  see_no_handlers :
      (n k : ℕ)
      → k ≤ n
      → (pc : ℕ → Pc H) × Steps n guarded (record guarded { pc = pc })
        × ((j : ℕ) → j < k → pc j ≡ count_test)
        × ((j : ℕ) → k ≤ j → pc j ≡ run_test)
  see_no_handlers n zero le = (λ i. run_test, here, λ j h. absurd (omega (arith, h)), λ j h. refl)
  see_no_handlers n (suc k) le =
      let (pc, r, seen, ahead) = see_no_handlers n k (omega arith) in
      (
        _,
        later (later r (work k (omega arith) (run_on (ahead k (omega arith)) refl)))
            (work k (omega arith) (no_handlers (ground arith) refl)),
        λ j h. ground (arith, seen j, h),
        λ j h. ground (arith, ahead j, h),
      )

  -- A handler is posted under the guard, and the guard is released.
  abbrev posted_late : H → (ℕ → Pc H) → Crowd H
  posted_late h pc = record guarded {
    handlers = record { items = posted h ∷ []; is_stopped = false };
    accepted = posted h ∷ [];
    work_count = 0;
    guests = 1;
    pc = pc;
  }

  -- The threads find no guard and no timer, and leave.
  see_no_work :
      (n k : ℕ) (h : H) (pc : ℕ → Pc H)
      → k ≤ n
      → ((j : ℕ) → j < n → pc j ≡ count_test)
      → (pc' : ℕ → Pc H) × Steps n (posted_late h pc) (posted_late h pc')
        × ((j : ℕ) → j < k → pc' j ≡ left)
        × ((j : ℕ) → k ≤ j → j < n → pc' j ≡ count_test)
  unfolding is_idle
  see_no_work n zero h pc le seen =
      (pc, here, λ j lt. absurd (omega (arith, lt)), λ j ge lt. seen j lt)
  see_no_work n (suc k) h pc le seen =
      let (pc', r, gone, rest) = see_no_work n k h pc (omega arith) seen in
      (
        _,
        later (later r (work k (omega arith) (no_guards (rest k (omega arith) (omega arith)) refl)))
            (work k (omega arith) (no_timers (ground arith) refl)),
        λ j lt. ground (arith, gone j, lt),
        λ j ge lt. ground (arith, rest j, ge, lt),
      )

  Steps-append : {n : ℕ} {s t u : Crowd H} → Steps n s t → Steps n t u → Steps n s u
  Steps-append a here = a
  Steps-append a (later b st) = later (Steps-append a b) st

  -- A post under a work guard can be left behind: for any number of threads inside `run` of a
  -- context with one guard, and any handler, there is a run in which a thread outside posts the
  -- handler while the guard is held, and the guard is released, and at whose end all threads have
  -- left `run` for want of work, though nobody has stopped the context and the handler is queued and
  -- was not started.
  pub guarded_post_left_behind :
      (n : ℕ) (h : H)
      → (s : Crowd H) × Steps n guarded s
        × ((i : ℕ) → i < n → s.pc i ≡ left)
        × (s.guests ≡ 1)
        × (s.unguarded ≡ 0)
        × (s.work_count ≡ 0)
        × (s.is_stopped ≡ false)
        × (s.handlers ≡ record { items = posted h ∷ []; is_stopped = false })
        × (s.accepted ≡ posted h ∷ [])
        × (s.started ≡ [])
  unfolding push_item
  guarded_post_left_behind n h =
      let (pc, r, seen, _) = see_no_handlers n n (omega arith) in
      let (pc', r', gone, _) = see_no_work n n h pc (omega arith) seen in
      (
        posted_late h pc',
        Steps-append {t = posted_late h pc}
            (later (later r (guest_posts h refl)) (release_guard (omega arith))) r',
        gone,
        refl,
        refl,
        refl,
        refl,
        refl,
        refl,
        refl,
      )
