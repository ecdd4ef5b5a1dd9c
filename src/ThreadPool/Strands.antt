-- ===== src/ThreadPool/Strands.antt =====
-- A strand on the executor of a thread pool: svarog/include/svarog/execution/strand.hpp with
-- svarog/source/svarog/execution/thread_pool.cpp, whose executor is `io_context::executor_type`. What
-- the strand schedules is an item of the pool's handler queue, and the workers of the pool are
-- threads of the strand.
pub mod Projection
pub mod Serving
use svarog_io.Common.{
  ℕ, zero, suc, ◌+◌, ◌-◌, ◌<◌, ◌≤◌, ◌≡◌, ◌≢◌, ◌⊎◌, Bool, true, false, List, [], ◌∷◌, ◌++◌,
}
use svarog_io.Common.Family.{update}
use svarog_io.WorkQueue.{WorkQueue, value, push_item, try_pop}
use svarog_io.WorkQueue
use svarog_io.Strand.{submitting, quiet, entered, idle, set_post, set_drain}
use svarog_io.Strand
use svarog_io.ThreadPool.{Pool, calling, draining, clearing, reviving}
use svarog_io.ThreadPool

-- A handler of the pool: `execute_next` of the strand, or another one.
pub data Item {ℓ} (K : Type ℓ) : Type ℓ where
  next : Item K
  other : K → Item K

abbrev pub count_next {ℓ} : {K : Type ℓ} → List (Item K) → ℕ
count_next [] = 0
count_next (next ∷ xs) = suc (count_next xs)
count_next (other k ∷ xs) = count_next xs

pub record Joint {ℓ} (H K : Type ℓ) : Type ℓ where
  pub pool : Pool (Item K)
  pub strand : Strand.System H

module _ {ℓ} {H K : Type ℓ} where
  -- Thread `i` runs code that may call the strand: it is no worker, or a worker inside a handler.
  abbrev pub Runs : ℕ → Joint H K → ℕ → Type 0
  Runs n s i = (n ≤ i) ⊎ (s.pool.pc i ≡ calling)

  -- `m` threads, the first `n` of them the workers.
  pub data Step (n m : ℕ) (s : Joint H K) : Joint H K → Type ℓ where
    -- A step in the strand that does not touch the executor.
    inside :
        (i : ℕ) {t : Strand.System H}
        → i < m
        → Runs n s i
        → Strand.Move s.strand i t
        → t.scheduled ≡ s.strand.scheduled
        → t.lost ≡ s.strand.lost
        → Step n m s (record s { strand = t })
    -- `m_executor.execute` of `post`, by the answer of the handler queue
    submit :
        (i : ℕ)
        → i < m
        → Runs n s i
        → (s.strand.threads i).post ≡ submitting
        → (push_item next s.pool.handlers).1 ≡ true
        → Step n m s (record {
          pool = record s.pool {
            handlers = (push_item next s.pool.handlers).0;
            accepted = s.pool.accepted ++ next ∷ [];
          };
          strand = record s.strand {
            scheduled = suc s.strand.scheduled;
            threads = set_post s.strand i quiet;
          };
        })
    refused :
        (i : ℕ)
        → i < m
        → Runs n s i
        → (s.strand.threads i).post ≡ submitting
        → (push_item next s.pool.handlers).1 ≡ false
        → Step n m s (record s {
          strand = record s.strand {
            lost = suc s.strand.lost;
            threads = set_post s.strand i quiet;
          };
        })
    -- A worker takes `execute_next` and calls it.
    take_next :
        (i : ℕ) {q : WorkQueue (Item K)}
        → i < n
        → s.pool.pc i ≡ draining
        → try_pop s.pool.handlers ≡ (q, value next)
        → Step n m s (record {
          pool = record s.pool {
            handlers = q;
            pc = update s.pool.pc i calling;
            started = s.pool.started ++ next ∷ [];
          };
          strand = record s.strand {
            scheduled = s.strand.scheduled - 1;
            threads = set_drain s.strand i entered;
          };
        })
    -- `restart` throws away what waits.
    drop_next :
        (i : ℕ)
        → i < n
        → s.pool.pc i ≡ clearing
        → Step n m s (record {
          pool = record s.pool {
            handlers = WorkQueue.clear s.pool.handlers;
            pc = update s.pool.pc i reviving;
          };
          strand = record s.strand { scheduled = 0; lost = s.strand.lost + s.strand.scheduled };
        })
    -- Any other step of the pool, where a worker ends a handler only outside the strand.
    beside :
        {p : Pool (Item K)}
        → ThreadPool.Step n s.pool p
        → count_next p.handlers.items ≡ count_next s.pool.handlers.items
        → ((i : ℕ) → s.pool.pc i ≡ calling → p.pc i ≢ calling → s.strand.threads i ≡ idle)
        → Step n m s (record s { pool = p })

  abbrev pub start : Joint H K
  start = record { pool = ThreadPool.start; strand = Strand.start }

  pub data Reach (n m : ℕ) : Joint H K → Type ℓ where
    at_start : Reach n m start
    later : {s t : Joint H K} → Reach n m s → Step n m s t → Reach n m t
