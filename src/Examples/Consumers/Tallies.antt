-- ===== src/Examples/Consumers/Tallies.antt =====
-- The tasks of the program, counted.
use svarog_io.Common.{
  ℕ, suc, ◌+◌, ◌<◌, ◌≤◌, ◌≡◌, refl, ap, Bool, [], ◌∷◌, arith, length, length-append,
}
use svarog_io.Common.Counting.{weigh, count, count-append}
use svarog_io.Common.Family.{total, total-update, total-eq-zero}
use svarog_io.WorkQueue.{push_item, try_pop, stop}
use svarog_io.Examples.Consumers.{
  Sizes, Task, Producer, unborn, producing, done, Consumer, trying, holding, counting, Program,
  start, MainStep, start_producer, start_consumer, ProducerStep, push_task, tasks_pushed,
  ConsumerStep, pop_task, call_task, count_task, detect_stop, yield_on, by_main, by_producer,
  by_consumer, Reach, at_start, later,
}
use svarog_io.Examples.Consumers.Places.{Phases}
use svarog_io.Examples.Consumers.Phases.{producing-open, Reach-Phases}

-- How many tasks a producer has pushed.
abbrev pub progress : ℕ → Producer → ℕ
progress tasks unborn = 0
progress tasks (producing j) = j
progress tasks done = tasks

-- A consumer has called a task and not counted it yet.
abbrev pub uncounted : Consumer → ℕ
uncounted counting = 1
uncounted _ = 0

module _ (p : Task → Bool) where
  abbrev pub held : Consumer → ℕ
  held (holding t) = weigh p t
  held _ = 0

  -- The tasks pushed are queued, held by a consumer, or called.
  pub record Tally (n : Sizes) (s : Program) : Type 0 where
    pub kept :
        count p s.pushed
        ≡ count p s.queue.items + total held n.consumers s.consumer + count p s.executed
    pub pushes : length s.pushed ≡ total (progress n.tasks) n.producers s.producer
    pub bounded : (i j : ℕ) → s.producer i ≡ producing j → j ≤ n.tasks
    pub counts : s.counter + total uncounted n.consumers s.consumer ≡ length s.executed

  start-Tally : (n : Sizes) → Tally n start
  start-Tally n = record {
    kept = omega (arith, total-eq-zero held n.consumers (λ i. unborn) (λ i. refl));
    pushes = omega (arith, total-eq-zero (progress n.tasks) n.producers (λ i. unborn) (λ i. refl));
    bounded = λ i j e. absurd (ground (arith, e));
    counts = omega (arith, total-eq-zero uncounted n.consumers (λ i. unborn) (λ i. refl));
  }

  MainStep-Tally : {n : Sizes} {s t : Program} → Phases n s → Tally n s → MainStep n s t → Tally n t
  unfolding stop
  MainStep-Tally {n} {s} w v (start_producer {k} e lt) = record {
    kept = v.kept;
    pushes = omega (
      arith,
      v.pushes,
      ap (progress n.tasks) (w.producers_unborn k (ground (arith, e)) lt),
      total-update (progress n.tasks) n.producers s.producer k (producing 0) lt,
    );
    bounded = λ i j f. ground (arith, v.bounded i j, f);
    counts = v.counts;
  }
  MainStep-Tally {n} {s} w v (start_consumer {k} e lt) =
      let before = w.consumers_unborn k (ground (arith, e)) lt in
      record {
        kept =
            omega
              (arith, v.kept, ap held before, total-update held n.consumers s.consumer k trying lt);
        pushes = v.pushes;
        bounded = v.bounded;
        counts = omega (
          arith,
          v.counts,
          ap uncounted before,
          total-update uncounted n.consumers s.consumer k trying lt,
        );
      }
  MainStep-Tally w v st = record {
    kept = v.kept;
    pushes = v.pushes;
    bounded = v.bounded;
    counts = v.counts;
  }

  ProducerStep-Tally :
      {n : Sizes} {s : Program} (i : ℕ) {t : Program}
      → i < n.producers
      → Phases n s
      → Tally n s
      → ProducerStep n s i t
      → Tally n t
  unfolding push_item
  ProducerStep-Tally {n} {s} i lt w v (push_task {j} e le) = record {
    kept = ground (
      arith,
      v.kept,
      producing-open i j w lt e,
      count-append p s.pushed ((i, j) ∷ []),
      count-append p s.queue.items ((i, j) ∷ []),
    );
    pushes = omega (
      arith,
      v.pushes,
      ap (progress n.tasks) e,
      length-append s.pushed ((i, j) ∷ []),
      total-update (progress n.tasks) n.producers s.producer i (producing (suc j)) lt,
    );
    bounded = λ h k f. ground (arith, v.bounded h k, f, le);
    counts = v.counts;
  }
  ProducerStep-Tally {n} {s} i lt w v (tasks_pushed {j} e le) = record {
    kept = v.kept;
    pushes = omega (
      arith,
      v.pushes,
      v.bounded i j e,
      le,
      ap (progress n.tasks) e,
      total-update (progress n.tasks) n.producers s.producer i done lt,
    );
    bounded = λ h k f. ground (arith, v.bounded h k, f);
    counts = v.counts;
  }

  ConsumerStep-Tally :
      {n : Sizes} {s : Program} (i : ℕ) {t : Program}
      → i < n.consumers
      → Tally n s
      → ConsumerStep n s i t
      → Tally n t
  unfolding try_pop
  ConsumerStep-Tally {n} {s} i lt v (pop_task {q} {t} e a) = record {
    kept =
        ground
          (arith, v.kept, a, ap held e, total-update held n.consumers s.consumer i (holding t) lt);
    pushes = v.pushes;
    bounded = v.bounded;
    counts = omega (
      arith,
      v.counts,
      ap uncounted e,
      total-update uncounted n.consumers s.consumer i (holding t) lt,
    );
  }
  ConsumerStep-Tally {n} {s} i lt v (call_task {t} e) = record {
    kept = omega (
      arith,
      v.kept,
      ap held e,
      count-append p s.executed (t ∷ []),
      total-update held n.consumers s.consumer i counting lt,
    );
    pushes = v.pushes;
    bounded = v.bounded;
    counts = omega (
      arith,
      v.counts,
      ap uncounted e,
      length-append s.executed (t ∷ []),
      total-update uncounted n.consumers s.consumer i counting lt,
    );
  }
  ConsumerStep-Tally {n} {s} i lt v (count_task e) = record {
    kept = omega (arith, v.kept, ap held e, total-update held n.consumers s.consumer i trying lt);
    pushes = v.pushes;
    bounded = v.bounded;
    counts = omega (
      arith,
      v.counts,
      ap uncounted e,
      total-update uncounted n.consumers s.consumer i trying lt,
    );
  }
  ConsumerStep-Tally {n} {s} i lt v (detect_stop {q} e a) = record {
    kept = ground (arith, v.kept, a, ap held e, total-update held n.consumers s.consumer i done lt);
    pushes = v.pushes;
    bounded = v.bounded;
    counts =
        omega (
          arith,
          v.counts,
          ap uncounted e,
          total-update uncounted n.consumers s.consumer i done lt,
        );
  }
  ConsumerStep-Tally {n} {s} i lt v (yield_on {q} e a) = record {
    kept = ground (arith, v.kept, a);
    pushes = v.pushes;
    bounded = v.bounded;
    counts = v.counts;
  }

  pub Reach-Tally : {n : Sizes} {s : Program} → Reach n s → Tally n s
  Reach-Tally {n} at_start = start-Tally n
  Reach-Tally (later r (by_main st)) = MainStep-Tally (Reach-Phases r) (Reach-Tally r) st
  Reach-Tally (later r (by_producer i lt st)) =
      ProducerStep-Tally i lt (Reach-Phases r) (Reach-Tally r) st
  Reach-Tally (later r (by_consumer i lt st)) = ConsumerStep-Tally i lt (Reach-Tally r) st
