-- ===== src/ThreadPool/Stopping.antt =====
-- A pool whose `stop` waits for its threads.
use svarog_io.Common.{
  ℕ, ◌<◌, ◌≡◌, ◌≢◌, refl, ◌⊎◌, inl, inr, true, List, [], ◌∷◌, arith, Bool-cases, dec_lt,
}
use svarog_io.Common.Family.{total-lt}
use svarog_io.WorkQueue.{push_item, try_pop}
use svarog_io.ThreadPool.Bounds.{Bounded, Move-Same, Reach-Bounded}
use svarog_io.ThreadPool.{
  Pc, token_test, stopped_test, run_test, queue_test, count_test, waiting, draining, calling,
  stopped_again, token_again, clearing, reviving, caught, finished, closing, Pool, asked, Move,
  see_token, no_token, see_stopped, enter_run, run_stopped, run_on, has_handlers, no_handlers,
  has_work, no_work, wait_over, take, take_none, handler_returns, caught_asked, caught_on,
  leave_stopped, not_stopped, leave_asked, restart_run, clear_handlers, revive, Step, work, post,
  reset_guard, store_stopped, stop_handlers, request, join, Reach,
}
use svarog_io.ThreadPool.Falling.{rank, left, measure, Move-Falls}

finished_or : (p : Pc) → (p ≡ finished) ⊎ (p ≢ finished)
unfolding rank
finished_or p = elim (dec_lt 0 (rank true p)) [
  | yes far ↦ inr (λ e. ground (arith, far, e))
  | no near ↦ inl (ground (arith, near))
]

items_cases {ℓ} : {A : Type ℓ} (xs : List A) → (xs ≡ []) ⊎ ((x : A) × (ys : List A) × (xs ≡ x ∷ ys))
items_cases [] = inl refl
items_cases (x ∷ xs) = inr (x, xs, refl)

module _ {ℓ} {H : Type ℓ} where
  -- A worker that is not at its end can go on.
  enabled_at : (s : Pool H) (i : ℕ) (p : Pc) → s.pc i ≡ p → p ≢ finished → (t : Pool H) × Move s i t
  unfolding try_pop
  enabled_at s i token_test e d = elim (Bool-cases (asked s i)) [
    | inl a ↦ (_, see_token e a)
    | inr a ↦ (_, no_token e a)
  ]
  enabled_at s i stopped_test e d = elim (Bool-cases s.is_stopped) [
    | inl a ↦ (_, see_stopped e a)
    | inr a ↦ (_, enter_run e a)
  ]
  enabled_at s i run_test e d = elim (Bool-cases s.is_stopped) [
    | inl a ↦ (_, run_stopped e a)
    | inr a ↦ (_, run_on e a)
  ]
  enabled_at s i queue_test e d = elim (items_cases s.handlers.items) [
    | inl none_there ↦ (_, no_handlers e none_there)
    | inr (h, xs, some_there) ↦ (_, has_handlers e (λ gone. ground (arith, gone, some_there)))
  ]
  enabled_at s i count_test e d = elim (dec_lt 0 s.work_count) [
    | yes busy ↦ (_, has_work e busy)
    | no free ↦ (_, no_work e (omega arith))
  ]
  enabled_at s i waiting e d = (_, wait_over e)
  enabled_at s i draining e d = elim (items_cases s.handlers.items) [
    | inl none_there ↦ (_, take_none e none_there)
    | inr (h, xs, some_there) ↦
        (_, take {q = record s.handlers { items = xs }} {h = h} e (ground (arith, some_there)))
  ]
  enabled_at s i calling e d = (_, handler_returns e)
  enabled_at s i stopped_again e d = elim (Bool-cases s.is_stopped) [
    | inl a ↦ (_, leave_stopped e a)
    | inr a ↦ (_, not_stopped e a)
  ]
  enabled_at s i token_again e d = elim (Bool-cases (asked s i)) [
    | inl a ↦ (_, leave_asked e a)
    | inr a ↦ (_, restart_run e a)
  ]
  enabled_at s i clearing e d = (_, clear_handlers e)
  enabled_at s i reviving e d = (_, revive e)
  enabled_at s i caught e d = elim (Bool-cases (asked s i)) [
    | inl a ↦ (_, caught_asked e a)
    | inr a ↦ (_, caught_on e a)
  ]
  enabled_at s i finished e d = absurd (d refl)

  Step-measure :
      {n : ℕ} (s : Pool H) {t : Pool H}
      → Bounded n s
      → s.phase ≡ closing
      → s.requested ≡ n
      → Step n s t
      → measure n t < measure n s
  unfolding measure
  Step-measure {n} s {t} v p all (work i lt m) =
      let (falls, others) =
        Move-Falls s i (v.dead p) (v.free (λ r. ground (arith, p, r))) (ground (arith, all, lt))
          m in
      omega (
        arith,
        total-lt (left t.handlers.items) (left s.handlers.items) n t.pc s.pc i lt others falls,
        (Move-Same s i m).4,
      )
  Step-measure s v p all (post h ok) = absurd (unfold push_item in ground (arith, v.dead p, ok))
  Step-measure s v p all (reset_guard e) = absurd (ground (arith, p, e))
  Step-measure s v p all (store_stopped e) = absurd (ground (arith, p, e))
  Step-measure s v p all (stop_handlers e) = absurd (ground (arith, p, e))
  Step-measure s v p all (request e lt) = absurd (omega (arith, all))
  Step-measure s v p all (join e a lt f) = omega arith

  -- `stop` returns: once it has requested every token, no sequence of steps, of any threads and in
  -- any order, is longer than `measure`, since each step lowers it (a handler that is being called
  -- counts as one step, by which it returns or throws); and as long as a thread is not joined, some
  -- step can be made, so that the sequence ends with all threads joined.
  pub stop_returns :
      {n : ℕ} {s : Pool H}
      → Reach n s
      → s.phase ≡ closing
      → s.requested ≡ n
      → ((t : Pool H) → Step n s t → measure n t < measure n s)
        × ((s.joined ≡ n) ⊎ ((t : Pool H) × Step n s t))
  stop_returns {n} {s} r p all = (
    λ t st. Step-measure s v p all st,
    elim (dec_lt s.joined n) [
      | no done ↦ inl (omega (arith, v.joined_all))
      | yes lt ↦ inr (elim (finished_or (s.pc s.joined)) [
        | inl e ↦ (_, join p all lt e)
        | inr d ↦
            let (t, m) = enabled_at s s.joined (s.pc s.joined) refl d in (t, work s.joined lt m)
      ])
    ],
  )
    where
      v : Bounded n s
      v = Reach-Bounded r
