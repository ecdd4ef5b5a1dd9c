-- ===== src/ThreadPool/Falling.antt =====
-- How far the workers of a pool are from their end, when it is asked to stop.
use svarog_io.Common.{
  ℕ, ◌+◌, ◌*◌, ◌-◌, ◌<◌, ◌≤◌, ◌≡◌, Bool, true, false, List, [], ◌∷◌, arith, length, is_empty,
}
use svarog_io.Common.Family.{total}
use svarog_io.WorkQueue.{WorkQueue, push_item, try_pop, value, clear}
use svarog_io.ThreadPool.{
  Pc, token_test, stopped_test, run_test, queue_test, count_test, waiting, draining, calling,
  stopped_again, token_again, clearing, reviving, caught, finished, Pool, goes, asked, Move,
  see_token, no_token, see_stopped, enter_run, run_stopped, run_on, has_handlers, no_handlers,
  has_work, no_work, wait_over, take, take_none, handler_posts, handler_returns, handler_throws,
  caught_asked, caught_on, leave_stopped, not_stopped, leave_asked, restart_run, clear_handlers,
  revive,
}

-- How far a worker is from its end, by whether the handler queue is empty.
unfoldable pub rank : Bool → Pc → ℕ
rank b finished = 0
rank b token_test = 1
rank b caught = 1
rank b token_again = 1
rank b stopped_again = 2
rank b reviving = 2
rank b clearing = 3
rank b count_test = 3
rank b draining = 6
rank b waiting = 7
rank b calling = 8
rank true queue_test = 4
rank true run_test = 5
rank true stopped_test = 6
rank false queue_test = 8
rank false run_test = 9
rank false stopped_test = 10

rank_le : (p : Pc) → rank true p ≤ rank false p
unfolding rank
rank_le p = ground arith

module _ {ℓ} {H : Type ℓ} where
  unfoldable pub left : List H → Pc → ℕ
  unfolding rank
  left items p = 10 * length items + rank (is_empty items) p

  -- Handlers queued, workers not at their end and threads not joined, weighed together.
  unfoldable pub measure : ℕ → Pool H → ℕ
  unfolding left total
  measure n s = total (left s.handlers.items) n s.pc + (n - s.joined)

  -- Worker `i` comes closer to its end, and no other gets farther away.
  abbrev pub Falls : Pool H → ℕ → Pool H → Type 0
  Falls s i t =
      (left t.handlers.items (t.pc i) < left s.handlers.items (s.pc i))
      × ((j : ℕ) → left t.handlers.items (t.pc j) ≤ left s.handlers.items (s.pc j))

  goes-Falls :
      (s : Pool H) (i : ℕ) (p : Pc)
      → left s.handlers.items p < left s.handlers.items (s.pc i)
      → Falls s i (goes s i p)
  goes-Falls s i p lt = (ground (arith, lt), λ j. ground (arith, lt))

  left_shorter : (xs ys : List H) (p : Pc) → length xs ≤ length ys → left xs p ≤ left ys p
  unfolding left rank
  left_shorter [] [] p le = omega arith
  left_shorter [] (y ∷ ys) p le = ground (arith, rank_le p)
  left_shorter (x ∷ xs) [] p le = absurd (omega arith)
  left_shorter (x ∷ xs) (y ∷ ys) p le = omega arith

  -- One handler fewer makes up for the one that runs.
  left-tail : (h : H) (xs : List H) → left xs calling < left (h ∷ xs) draining
  unfolding left rank
  left-tail h xs = omega arith

  take_items : (w q : WorkQueue H) (h : H) → try_pop w ≡ (q, value h) → w.items ≡ h ∷ q.items
  unfolding try_pop
  take_items w q h e = ground (arith, e)

  module _ (s : Pool H) (i : ℕ) (dead : s.handlers.is_stopped ≡ true) (free : s.work_count ≡ 0)
      (ask : asked s i ≡ true) where
    pub Move-Falls : {t : Pool H} → Move s i t → Falls s i t
    unfolding left rank clear
    Move-Falls (see_token e a) = goes-Falls s i finished (ground (arith, e))
    Move-Falls (no_token e a) = absurd (ground (arith, ask, a))
    Move-Falls (see_stopped e a) = goes-Falls s i finished (ground (arith, e))
    Move-Falls (enter_run e a) = goes-Falls s i run_test (ground (arith, e))
    Move-Falls (run_stopped e a) = goes-Falls s i stopped_again (ground (arith, e))
    Move-Falls (run_on e a) = goes-Falls s i queue_test (ground (arith, e))
    Move-Falls (has_handlers e a) = goes-Falls s i waiting (ground (arith, e, a))
    Move-Falls (no_handlers e a) = goes-Falls s i count_test (ground (arith, e, a))
    Move-Falls (has_work e a) = absurd (omega (arith, free, a))
    Move-Falls (no_work e a) = goes-Falls s i stopped_again (ground (arith, e))
    Move-Falls (wait_over e) = goes-Falls s i draining (ground (arith, e))
    Move-Falls (take {q} {h} e a) =
        let items = take_items s.handlers q h a in
        (
          ground (arith, e, items, left-tail h q.items),
          λ j. ground (
            arith,
            e,
            items,
            left-tail h q.items,
            left_shorter q.items s.handlers.items (s.pc j) (ground (arith, items)),
          ),
        )
    Move-Falls (take_none e a) = goes-Falls s i run_test (ground (arith, e, a))
    Move-Falls (handler_posts h e a) = absurd (unfold push_item in ground (arith, dead, a))
    Move-Falls (handler_returns e) = goes-Falls s i draining (ground (arith, e))
    Move-Falls (handler_throws e) = goes-Falls s i caught (ground (arith, e))
    Move-Falls (caught_asked e a) = goes-Falls s i finished (ground (arith, e))
    Move-Falls (caught_on e a) = absurd (ground (arith, ask, a))
    Move-Falls (leave_stopped e a) = goes-Falls s i finished (ground (arith, e))
    Move-Falls (not_stopped e a) = goes-Falls s i token_again (ground (arith, e))
    Move-Falls (leave_asked e a) = goes-Falls s i finished (ground (arith, e))
    Move-Falls (restart_run e a) = absurd (ground (arith, ask, a))
    Move-Falls (clear_handlers e) = (
      ground (arith, e),
      λ j. ground (arith, e, left_shorter [] s.handlers.items (s.pc j) (omega arith)),
    )
    Move-Falls (revive e) = (ground (arith, e), λ j. ground (arith, e))
