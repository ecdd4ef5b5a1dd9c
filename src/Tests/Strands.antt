-- ===== src/Tests/Strands.antt =====
-- A strand on a pool with one worker.
use svarog_io.Common.{ℕ, ◌≤◌, ◌<◌, ◌≡◌, ◌≢◌, refl, inl, inr, [], ◌∷◌, arith}
use svarog_io.WorkQueue.{push_item, try_pop}
use svarog_io.Strand
use svarog_io.Strand.{idle, handling}
use svarog_io.ThreadPool.{
  work, calling, no_token, enter_run, run_on, has_handlers, wait_over, handler_returns,
}
use svarog_io.ThreadPool.Strands.{Joint, Reach, at_start, later, inside, submit, take_next, beside}
use svarog_io.ThreadPool.Strands.Serving.{pool_serves_strand}

record Run : Type 0 where
  last : Joint ℕ ℕ
  reach : Reach 1 2 last

-- Thread 1, which is no worker, posts 7 to the strand.
abbrev scheduled_once : Run
unfolding push_item try_pop
scheduled_once = record {
  last = _;
  reach =
      later
        (later
          (later at_start
            (inside 1 (omega arith) (inl (omega arith)) (Strand.post_push 7 refl refl) refl refl))
          (inside 1 (omega arith) (inl (omega arith)) (Strand.post_claim refl refl) refl refl))
        (submit 1 (omega arith) (inl (omega arith)) refl refl);
}

-- The only worker takes `execute_next`.
abbrev called_next : Run
unfolding push_item try_pop
called_next = record {
  last = _;
  reach =
      later
        (later
          (later
            (later
              (later
                (later (scheduled_once.reach) (
                  beside (work 0 (omega arith) (no_token refl refl)) refl
                    (λ i here gone. ground (arith, here, gone))))
                (beside (work 0 (omega arith) (enter_run refl refl)) refl
                  (λ i here gone. ground (arith, here, gone))))
              (beside (work 0 (omega arith) (run_on refl refl)) refl
                (λ i here gone. ground (arith, here, gone))))
            (beside (work 0 (omega arith) (has_handlers refl (λ e. ground (arith, e)))) refl
              (λ i here gone. ground (arith, here, gone))))
          (beside (work 0 (omega arith) (wait_over refl)) refl
            (λ i here gone. ground (arith, here, gone))))
        (take_next 0 (omega arith) refl refl);
}

-- It runs the handler, and leaves the strand.
abbrev drained : Run
unfolding push_item try_pop
drained = record {
  last = _;
  reach =
      later
        (later
          (later
            (later
              (later
                (later
                  (later (called_next.reach)
                    (inside 0 (omega arith) (inr refl) (Strand.store_id refl) refl refl))
                  (inside 0 (omega arith) (inr refl) (Strand.pop_handler refl refl) refl refl))
                (inside 0 (omega arith) (inr refl) (Strand.handler_end refl refl refl) refl refl))
              (inside 0 (omega arith) (inr refl) (Strand.pop_nothing refl refl) refl refl))
            (inside 0 (omega arith) (inr refl) (Strand.clear_id refl) refl refl))
          (inside 0 (omega arith) (inr refl) (Strand.release refl) refl refl))
        (inside 0 (omega arith) (inr refl) (Strand.leave_empty refl refl) refl refl);
}

-- It goes back to the queue.
abbrev served : Run
unfolding push_item try_pop
served = record {
  last = _;
  reach = later (drained.reach) (
      beside (work 0 (omega arith) (handler_returns refl)) refl
        (λ i here gone. ground (arith, here, gone)));
}

served_quiet : (i : ℕ) → 1 ≤ i → served.last.strand.threads i ≡ idle
unfolding push_item try_pop
served_quiet i h = ground (arith, h)

served_away : (i : ℕ) → i < 1 → served.last.pool.pc i ≢ calling
unfolding push_item try_pop
served_away i h e = ground (arith, h, e)

pool_serves_strand_example : 7 ∷ [] ≡ served.last.strand.started
unfolding push_item try_pop
pool_serves_strand_example =
    (pool_serves_strand (omega arith) served.reach refl).4 refl served_away served_quiet
