-- ===== src/Examples/Consumers/Phases.antt =====
-- The places of the threads, at every step.
use svarog_io.Common.{
  ℕ, suc, ◌<◌, ◌≡◌, ◌≢◌, refl, inl, inr, true, false, List, [], ◌∷◌, ◌++◌, arith, Bool-cases,
}
use svarog_io.Common.Family.{update}
use svarog_io.WorkQueue.{WorkQueue, push_item, try_pop}
use svarog_io.Examples.Consumers.{
  Sizes, Task, trying, holding, counting, unborn, producing, done, Consumer, Program, ProducerStep,
  push_task, tasks_pushed, ConsumerStep, pop_task, call_task, count_task, detect_stop, yield_on,
  Step, by_main, by_producer, by_consumer, Reach, at_start, later,
}
use svarog_io.Examples.Consumers.Places.{Phases, joined_producers, start-Phases, MainStep-Phases}

stopped-joined :
    (n : Sizes) (s : Program) (i : ℕ)
    → s.queue.is_stopped ≡ true
    → Phases n s
    → i < n.producers
    → i < joined_producers n s.main
stopped-joined n s i closed v lt = ground (arith, closed, v.stopped_by_main, lt)

-- A producer that has a task to push finds the queue open.
pub producing-open :
    {n : Sizes} {s : Program} (i j : ℕ)
    → Phases n s
    → i < n.producers
    → s.producer i ≡ producing j
    → s.queue.is_stopped ≡ false
producing-open {n} {s} i j v lt e = elim (Bool-cases s.queue.is_stopped) [
  | inr opened ↦ opened
  | inl closed ↦
      let d = v.producers_done i (stopped-joined n s i closed v lt) lt in
      absurd (ground (arith, e, d))
]

ProducerStep-Phases :
    {n : Sizes} {s : Program} (i : ℕ) {t : Program}
    → i < n.producers
    → Phases n s
    → ProducerStep n s i t
    → Phases n t
unfolding push_item
ProducerStep-Phases i lt v (push_task {j} e le) =
    let opened = producing-open i j v lt e in
    record {
      stopped_by_main = ground (arith, v.stopped_by_main, opened);
      producers_unborn = λ h c b. ground (arith, v.producers_unborn h c b, e);
      consumers_unborn = v.consumers_unborn;
      producers_done = λ h c b. ground (arith, v.producers_done h c b, e);
      consumers_done = v.consumers_done;
      drained = λ h b d. absurd (ground (arith, opened, v.drained h b d));
      emptied = λ h b d. absurd (ground (arith, opened, v.drained h b d));
    }
ProducerStep-Phases i lt v (tasks_pushed e le) = record {
  stopped_by_main = v.stopped_by_main;
  producers_unborn = λ h c b. ground (arith, v.producers_unborn h c b, e);
  consumers_unborn = v.consumers_unborn;
  producers_done = λ h c b. ground (arith, v.producers_done h c b, e);
  consumers_done = v.consumers_done;
  drained = v.drained;
  emptied = v.emptied;
}

-- A consumer goes on, and is not at its end; the queue may have lost an item.
consumer-Phases :
    {n : Sizes} (s : Program) (i : ℕ) (c : Consumer) (q : WorkQueue Task) (counter : ℕ)
    (executed : List Task)
    → Phases n s
    → s.consumer i ≢ unborn
    → s.consumer i ≢ done
    → c ≢ done
    → q.is_stopped ≡ s.queue.is_stopped
    → (s.queue.items ≡ [] → q.items ≡ [])
    → Phases n (record s {
      queue = q;
      counter = counter;
      consumer = update s.consumer i c;
      executed = executed;
    })
consumer-Phases s i c q counter executed v not_unborn not_done goes_on flag fewer = record {
  stopped_by_main = ground (arith, v.stopped_by_main, flag);
  producers_unborn = v.producers_unborn;
  consumers_unborn = λ h le b. ground (arith, v.consumers_unborn h le b, not_unborn);
  producers_done = v.producers_done;
  consumers_done = λ h le b. ground (arith, v.consumers_done h le b, not_done);
  drained = λ h b d. ground (arith, v.drained h b, d, goes_on, flag);
  emptied = λ h b d. fewer (v.emptied h b (ground (arith, d, goes_on)));
}

ConsumerStep-Phases :
    {n : Sizes} {s : Program} (i : ℕ) {t : Program}
    → i < n.consumers
    → Phases n s
    → ConsumerStep n s i t
    → Phases n t
unfolding try_pop
ConsumerStep-Phases {s = s} i lt v (pop_task {q} {t} e a) =
    consumer-Phases s i (holding t) q s.counter s.executed v (λ u. ground (arith, e, u))
      (λ d. ground (arith, e, d)) (λ d. ground (arith, d)) (ground (arith, a))
      (λ none. absurd (ground (arith, a, none)))
ConsumerStep-Phases {s = s} i lt v (call_task {t} e) =
    consumer-Phases s i counting s.queue s.counter (s.executed ++ t ∷ []) v
      (λ u. ground (arith, e, u)) (λ d. ground (arith, e, d)) (λ d. ground (arith, d)) refl
      (λ none. none)
ConsumerStep-Phases {s = s} i lt v (count_task e) =
    consumer-Phases s i trying s.queue (suc s.counter) s.executed v (λ u. ground (arith, e, u))
      (λ d. ground (arith, e, d)) (λ d. ground (arith, d)) refl (λ none. none)
ConsumerStep-Phases {s = s} i lt v (detect_stop {q} e a) =
    let closed : s.queue.is_stopped ≡ true = ground (arith, a) in
    let gone : s.queue.items ≡ [] = ground (arith, a) in
    let same : q ≡ s.queue = ground (arith, a) in
    record {
      stopped_by_main = ground (arith, v.stopped_by_main, same);
      producers_unborn = v.producers_unborn;
      consumers_unborn = λ h le b. ground (arith, v.consumers_unborn h le b, e);
      producers_done = v.producers_done;
      consumers_done = λ h le b. ground (arith, v.consumers_done h le b);
      drained = λ h b d. ground (arith, same, closed);
      emptied = λ h b d. ground (arith, same, gone);
    }
ConsumerStep-Phases {s = s} i lt v (yield_on {q} e a) =
    let same : q ≡ s.queue = ground (arith, a) in
    record {
      stopped_by_main = ground (arith, v.stopped_by_main, same);
      producers_unborn = v.producers_unborn;
      consumers_unborn = v.consumers_unborn;
      producers_done = v.producers_done;
      consumers_done = v.consumers_done;
      drained = λ h b d. ground (arith, same, v.drained h b d);
      emptied = λ h b d. ground (arith, same, v.emptied h b d);
    }

Step-Phases : {n : Sizes} {s t : Program} → Phases n s → Step n s t → Phases n t
Step-Phases v (by_main st) = MainStep-Phases v st
Step-Phases v (by_producer i lt st) = ProducerStep-Phases i lt v st
Step-Phases v (by_consumer i lt st) = ConsumerStep-Phases i lt v st

pub Reach-Phases : {n : Sizes} {s : Program} → Reach n s → Phases n s
Reach-Phases {n} at_start = start-Phases n
Reach-Phases (later r st) = Step-Phases (Reach-Phases r) st
