-- ===== src/ThreadPool/Reviving.antt =====
-- A worker that restarts the context while `stop` is under way.
use svarog_io.Common.{ℕ, zero, suc, ◌<◌, ◌≤◌, ◌≡◌, refl, false, arith, ℕ_discrete, ◌-◌}
use svarog_io.Common.Family.{update}
use svarog_io.WorkQueue.{clear}
use svarog_io.ThreadPool.{
  token_test, reviving, finished, closing, Pool, stopped, Steps, Reach, see_token, no_token,
  enter_run, run_on, no_handlers, no_work, not_stopped, restart_run, clear_handlers, revive, work,
  reset_guard, store_stopped, stop_handlers, request, join, here, later,
}

module _ {ℓ} {H : Type ℓ} where
  pub Steps-append : {n : ℕ} {s t u : Pool H} → Steps n s t → Steps n t u → Steps n s u
  Steps-append a here = a
  Steps-append a (later b st) = later (Steps-append a b) st

  -- What the steps of `stop` below keep.
  abbrev pub Kept : Pool H → Pool H → Type ℓ
  Kept s t =
      (t.phase ≡ s.phase)
      × (t.is_stopped ≡ s.is_stopped)
      × (t.accepted ≡ s.accepted)
      × (t.started ≡ s.started)

  pub requests :
      (n : ℕ) (s : Pool H) (k : ℕ)
      → k ≤ n
      → s.phase ≡ closing
      → s.requested ≡ 0
      → (t : Pool H) × Steps n s t
        × Kept s t
        × (t.requested ≡ k)
        × (t.joined ≡ s.joined)
        × (t.pc ≡ s.pc)
  requests n s zero le p none_asked = (s, here, (refl, refl, refl, refl), none_asked, refl, refl)
  requests n s (suc k) le p none_asked =
      let (t, st, (same, flag, acc, sta), e, joins, pcs) =
        requests n s k (omega arith) p none_asked in
      (
        record t { requested = suc t.requested },
        later st (request (ground (arith, same, p)) (omega (arith, e))),
        (same, flag, acc, sta),
        omega (arith, e),
        joins,
        pcs,
      )

  -- The workers after the first one see their tokens, one after another.
  finishes :
      (n : ℕ) (s : Pool H) (k : ℕ)
      → suc k ≤ n
      → s.requested ≡ n
      → s.pc 0 ≡ finished
      → ((j : ℕ) → 0 < j → s.pc j ≡ token_test)
      → (t : Pool H) × Steps n s t
        × Kept s t
        × (t.requested ≡ n)
        × (t.joined ≡ s.joined)
        × ((j : ℕ) → j ≤ k → t.pc j ≡ finished)
        × ((j : ℕ) → k < j → t.pc j ≡ token_test)
  finishes n s zero le all first rest = (
    s,
    here,
    (refl, refl, refl, refl),
    all,
    refl,
    λ j h. ground (arith, first, ℕ_discrete j 0, h),
    rest,
  )
  finishes n s (suc k) le all first rest =
      let (t, st, kept, asks, joins, done, ahead) = finishes n s k (omega arith) all first rest in
      (
        record t { pc = update t.pc (suc k) finished },
        later st (
            work (suc k) (omega arith)
              (see_token (ahead (suc k) (omega arith)) (ground (arith, asks)))),
        kept,
        asks,
        joins,
        λ j h. ground (arith, done j, h),
        λ j h. ground (arith, ahead j, h),
      )

  pub joins :
      (n : ℕ) (s : Pool H) (k : ℕ)
      → k ≤ n
      → s.phase ≡ closing
      → s.requested ≡ n
      → s.joined ≡ 0
      → ((j : ℕ) → j < n → s.pc j ≡ finished)
      → (t : Pool H) × Steps n s t × Kept s t × (t.joined ≡ k) × (t.requested ≡ n) × (t.pc ≡ s.pc)
  joins n s zero le p all none_joined done =
      (s, here, (refl, refl, refl, refl), none_joined, all, refl)
  joins n s (suc k) le p all none_joined done =
      let (t, st, (same, flag, acc, sta), e, asks, pcs) =
        joins n s k (omega arith) p all none_joined done in
      (
        record t { joined = suc t.joined },
        later st (
            join (ground (arith, same, p)) asks (omega (arith, e))
              (ground (arith, pcs, e, done k))),
        (same, flag, acc, sta),
        omega (arith, e),
        asks,
        pcs,
      )

  -- The first worker finds no work once the guard is gone, clears the handlers, and makes its last
  -- store, to the flag, after `stop` has set it.
  race :
      (n : ℕ)
      → 0 < n
      → (s : Pool H) × Reach n s
        × (s.phase ≡ closing)
        × (s.pc 0 ≡ reviving)
        × (s.requested ≡ 0)
        × (s.joined ≡ 0)
        × ((j : ℕ) → 0 < j → s.pc j ≡ token_test)
  unfolding clear
  race n lt = (
    _,
    later
        (later
          (later
            (later
              (later
                (later
                  (later
                    (later
                      (later
                        (later (later here (work 0 lt (no_token refl refl)))
                          (work 0 lt (enter_run refl refl)))
                        (work 0 lt (run_on refl refl)))
                      (work 0 lt (no_handlers refl refl)))
                    (reset_guard refl))
                  (work 0 lt (no_work refl refl)))
                (work 0 lt (not_stopped refl refl)))
              (work 0 lt (restart_run refl refl)))
            (work 0 lt (clear_handlers refl)))
          (store_stopped refl))
        (stop_handlers refl),
    refl,
    refl,
    refl,
    refl,
    λ j h. ground (arith, h),
  )

  last_store :
      (n : ℕ) (s : Pool H)
      → 0 < n
      → s.requested ≡ n
      → s.pc 0 ≡ reviving
      → (t : Pool H) × Steps n s t
        × (t.phase ≡ s.phase)
        × (t.is_stopped ≡ false)
        × (t.requested ≡ n)
        × (t.joined ≡ s.joined)
        × (t.pc 0 ≡ finished)
        × ((j : ℕ) → 0 < j → t.pc j ≡ s.pc j)
  last_store n s lt all at = (
    _,
    later (later here (work 0 lt (revive at)))
        (work 0 lt (see_token refl (ground (arith, all, lt)))),
    refl,
    refl,
    all,
    refl,
    refl,
    λ j h. ground (arith, h),
  )

  -- `stop` can be undone: for a pool of any number of threads there is a run at whose end `stop` has
  -- returned, with every thread asked to stop and joined, and yet `stopped()` says false.
  pub stop_undone :
      (n : ℕ)
      → 0 < n
      → (s : Pool H) × Reach n s
        × (s.phase ≡ closing)
        × (s.requested ≡ n)
        × (s.joined ≡ n)
        × (stopped s ≡ false)
  stop_undone n lt =
      let (a, ra, pa, ea, qa, ja, resta) = race n lt in
      let (b, rb, (pb, fb, _, _), qb, jb, eb) = requests n a n (omega arith) pa qa in
      let (c, rc, pc, fc, qc, jc, ec, restc) = last_store n b lt qb (ground (arith, eb, ea)) in
      let (d, rd, (pd, fd, _, _), qd, jd, doned, _) =
        finishes n c (n - 1) (omega arith) qc ec
          (λ j h. ground (arith, restc j h, eb, resta j h)) in
      let (e, re, (pe, fe, _, _), je, qe, _) =
        joins n d n (omega arith) (ground (arith, pd, pc, pb, pa)) qd
          (ground (arith, jd, jc, jb, ja)) (λ j h. doned j (omega arith)) in
      (
        e,
        Steps-append {t = d} {u = e}
            (Steps-append {t = c} {u = d}
              (Steps-append {t = b} {u = c} (Steps-append {t = a} {u = b} ra rb) rc) rd)
            re,
        ground (arith, pe, pd, pc, pb, pa),
        qe,
        je,
        ground (arith, fe, fd, fc),
      )
