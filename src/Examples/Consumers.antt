-- ===== src/Examples/Consumers.antt =====
-- examples/work_queue/main.cpp, from "Multi-Producer Multi-Consumer" on: producers that push tasks to
-- one queue, consumers that take them by `try_pop` and call them, and the thread of `main`, which
-- starts all of them, joins the producers, stops the queue, and joins the consumers. A task is known
-- by the number of its producer and its own number; what it prints and the pauses are left out.
mod Places
mod Phases
mod Tallies
pub mod Served
use svarog_io.Common.{ℕ, zero, suc, ◌+◌, ◌<◌, ◌≤◌, ◌≡◌, Bool, true, false, List, [], ◌∷◌, ◌++◌}
use svarog_io.Common.Family.{update}
use svarog_io.WorkQueue.{WorkQueue, value, unexpected, empty, stopped, push_item, try_pop}
use svarog_io.WorkQueue

-- `num_producers`, `num_consumers` and `tasks_per_producer`
pub record Sizes : Type 0 where
  pub producers : ℕ
  pub consumers : ℕ
  pub tasks : ℕ

abbrev pub Task : Type 0
Task = ℕ × ℕ

-- A producer: not started, before the push of task `i`, or at its end.
pub data Producer : Type 0 where
  unborn : Producer
  producing : ℕ → Producer
  done : Producer

-- A consumer: not started, at `try_pop`, at the call of a task, at `counter++`, or at its end.
pub data Consumer : Type 0 where
  unborn trying : Consumer
  holding : Task → Consumer
  counting : Consumer
  done : Consumer

-- Where `main` stands, with how many threads its loop has started or joined.
pub data Main : Type 0 where
  starts_producers starts_consumers joins_producers : ℕ → Main
  stopping : Main
  joins_consumers : ℕ → Main
  finished : Main

-- `queue` and `counter`, and the threads; `pushed` and `executed` record the tasks that were pushed
-- and those called.
pub record Program : Type 0 where
  pub queue : WorkQueue Task
  pub counter : ℕ
  pub main : Main
  pub producer : ℕ → Producer
  pub consumer : ℕ → Consumer
  pub pushed : List Task
  pub executed : List Task

abbrev pub start : Program
start = record {
  queue = WorkQueue.new;
  counter = 0;
  main = starts_producers 0;
  producer = λ i. unborn;
  consumer = λ i. unborn;
  pushed = [];
  executed = [];
}

module _ (n : Sizes) (s : Program) where
  pub data MainStep : Program → Type 0 where
    start_producer :
        {k : ℕ}
        → s.main ≡ starts_producers k
        → k < n.producers
        → MainStep (record s {
          main = starts_producers (suc k);
          producer = update s.producer k (producing 0);
        })
    producers_started :
        {k : ℕ}
        → s.main ≡ starts_producers k
        → n.producers ≤ k
        → MainStep (record s { main = starts_consumers 0 })
    start_consumer :
        {k : ℕ}
        → s.main ≡ starts_consumers k
        → k < n.consumers
        → MainStep
            (record s { main = starts_consumers (suc k); consumer = update s.consumer k trying })
    consumers_started :
        {k : ℕ}
        → s.main ≡ starts_consumers k
        → n.consumers ≤ k
        → MainStep (record s { main = joins_producers 0 })
    join_producer :
        {k : ℕ}
        → s.main ≡ joins_producers k
        → k < n.producers
        → s.producer k ≡ done
        → MainStep (record s { main = joins_producers (suc k) })
    producers_joined :
        {k : ℕ}
        → s.main ≡ joins_producers k
        → n.producers ≤ k
        → MainStep (record s { main = stopping })
    stop_queue :
        s.main ≡ stopping
        → MainStep (record s { queue = WorkQueue.stop s.queue; main = joins_consumers 0 })
    join_consumer :
        {k : ℕ}
        → s.main ≡ joins_consumers k
        → k < n.consumers
        → s.consumer k ≡ done
        → MainStep (record s { main = joins_consumers (suc k) })
    consumers_joined :
        {k : ℕ}
        → s.main ≡ joins_consumers k
        → n.consumers ≤ k
        → MainStep (record s { main = finished })

  pub data ProducerStep (i : ℕ) : Program → Type 0 where
    -- Its answer is thrown away.
    push_task :
        {j : ℕ}
        → s.producer i ≡ producing j
        → j < n.tasks
        → ProducerStep i (record s {
          queue = (push_item (i, j) s.queue).0;
          producer = update s.producer i (producing (suc j));
          pushed = s.pushed ++ (i, j) ∷ [];
        })
    tasks_pushed :
        {j : ℕ}
        → s.producer i ≡ producing j
        → n.tasks ≤ j
        → ProducerStep i (record s { producer = update s.producer i done })

  pub data ConsumerStep (i : ℕ) : Program → Type 0 where
    pop_task :
        {q : WorkQueue Task} {t : Task}
        → s.consumer i ≡ trying
        → try_pop s.queue ≡ (q, value t)
        → ConsumerStep i (record s { queue = q; consumer = update s.consumer i (holding t) })
    call_task :
        {t : Task}
        → s.consumer i ≡ holding t
        → ConsumerStep i
            (record s { consumer = update s.consumer i counting; executed = s.executed ++ t ∷ [] })
    count_task :
        s.consumer i ≡ counting
        → ConsumerStep i
            (record s { counter = suc s.counter; consumer = update s.consumer i trying })
    detect_stop :
        {q : WorkQueue Task}
        → s.consumer i ≡ trying
        → try_pop s.queue ≡ (q, unexpected stopped)
        → ConsumerStep i (record s { queue = q; consumer = update s.consumer i done })
    yield_on :
        {q : WorkQueue Task}
        → s.consumer i ≡ trying
        → try_pop s.queue ≡ (q, unexpected empty)
        → ConsumerStep i (record s { queue = q })

pub data Step (n : Sizes) (s : Program) (t : Program) : Type 0 where
  by_main : MainStep n s t → Step n s t
  by_producer : (i : ℕ) → i < n.producers → ProducerStep n s i t → Step n s t
  by_consumer : (i : ℕ) → i < n.consumers → ConsumerStep n s i t → Step n s t

pub data Reach (n : Sizes) : Program → Type 0 where
  at_start : Reach n start
  later : {s t : Program} → Reach n s → Step n s t → Reach n t
