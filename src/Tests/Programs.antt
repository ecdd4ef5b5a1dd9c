-- ===== src/Tests/Programs.antt =====
-- The program of the work queue example with one producer, one consumer and one task.
use svarog_io.Common.{◌≡◌, refl, arith, ◌*◌}
use svarog_io.Common.Counting.{count}
use svarog_io.WorkQueue.{push_item, try_pop, stop}
use svarog_io.Examples.Consumers.{
  Sizes, Program, start_producer, producers_started, start_consumer, consumers_started,
  join_producer, producers_joined, stop_queue, join_consumer, consumers_joined, push_task,
  tasks_pushed, pop_task, call_task, count_task, detect_stop, by_main, by_producer, by_consumer,
  Reach, at_start, later,
}
use svarog_io.Examples.Consumers.Served.{is_task, all_tasks_called}

abbrev ones : Sizes
ones = record { producers = 1; consumers = 1; tasks = 1 }

record Run : Type 0 where
  last : Program
  reach : Reach ones last

-- The task is queued, and `main` waits for the producer.
abbrev queued : Run
unfolding push_item
queued = record {
  last = _;
  reach =
      later
        (later
          (later
            (later
              (later (later at_start (by_main (start_producer refl (omega arith))))
                (by_main (producers_started refl (omega arith))))
              (by_main (start_consumer refl (omega arith))))
            (by_main (consumers_started refl (omega arith))))
          (by_producer 0 (omega arith) (push_task refl (omega arith))))
        (by_producer 0 (omega arith) (tasks_pushed refl (omega arith)));
}

-- The queue is stopped with the task in it, the consumer calls the task, and all threads end.
abbrev ended : Run
unfolding push_item try_pop stop
ended = record {
  last = _;
  reach =
      later
        (later
          (later
            (later
              (later
                (later
                  (later
                    (later (later queued.reach (by_main (join_producer refl (omega arith) refl)))
                      (by_main (producers_joined refl (omega arith))))
                    (by_main (stop_queue refl)))
                  (by_consumer 0 (omega arith) (pop_task refl refl)))
                (by_consumer 0 (omega arith) (call_task refl)))
              (by_consumer 0 (omega arith) (count_task refl)))
            (by_consumer 0 (omega arith) (detect_stop refl refl)))
          (by_main (join_consumer refl (omega arith) refl)))
        (by_main (consumers_joined refl (omega arith)));
}

all_tasks_called_example :
    (count (is_task 0 0) ended.last.executed ≡ 1) × (ended.last.counter ≡ 1 * 1)
unfolding push_item try_pop stop
all_tasks_called_example =
    all_tasks_called 0 0 ended.reach (omega arith) refl (omega arith) (omega arith)
