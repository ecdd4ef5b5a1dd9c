-- ===== src/Examples/Consumers/Served.antt =====
-- Every task is called once.
use svarog_io.Common.{
  ℕ, zero, suc, ◌*◌, ◌<◌, ◌≡◌, refl, ap, Bool, true, List, [], ◌∷◌, arith, ltb, ◌==◌, ◌&&◌,
  if◌then◌else◌, length,
}
use svarog_io.Common.Counting.{count, count-append}
use svarog_io.Common.Family.{total}
use svarog_io.Examples.Consumers.{
  Sizes, Task, done, finished, Program, MainStep, start_producer, ProducerStep, push_task,
  tasks_pushed, ConsumerStep, pop_task, call_task, count_task, detect_stop, yield_on, by_main,
  by_producer, by_consumer, Reach, at_start, later,
}
use svarog_io.Examples.Consumers.Places.{Phases}
use svarog_io.Examples.Consumers.Phases.{Reach-Phases}
use svarog_io.Examples.Consumers.Tallies.{progress, uncounted, held, Tally, Reach-Tally}

count-all : (ts : List Task) → count (λ t. true) ts ≡ length ts
count-all [] = refl
count-all (t ∷ ts) = omega (arith, count-all ts)

-- A family that weighs the same at every thread.
total-const :
    {A : Type 0} (w : A → ℕ) (c n : ℕ) (f : ℕ → A)
    → ((i : ℕ) → i < n → w (f i) ≡ c)
    → total w n f ≡ n * c
unfolding total
total-const w c zero f same = omega arith
total-const w c (suc n) f same =
    omega (arith, total-const w c n f (λ i lt. same i (omega (arith, lt))), same n (omega arith))

abbrev pub is_task : ℕ → ℕ → Task → Bool
is_task i j t = (t.0 == i) && (t.1 == j)

-- Each producer has pushed its first tasks, and each of them once.
abbrev Pushes : Sizes → Program → Type 0
Pushes n s =
    (i j : ℕ)
    → i < n.producers
    → count (is_task i j) s.pushed ≡ (if ltb j (progress n.tasks (s.producer i)) then 1 else 0)

MainStep-Pushes :
    {n : Sizes} {s t : Program} → Phases n s → Pushes n s → MainStep n s t → Pushes n t
MainStep-Pushes w u (start_producer {k} e lt) =
    λ i j b. ground (arith, u i j b, w.producers_unborn k (ground (arith, e)) lt)
MainStep-Pushes w u st = u

ProducerStep-Pushes :
    {n : Sizes} {s : Program} (h : ℕ) {t : Program}
    → h < n.producers
    → Tally (λ t. true) n s
    → Pushes n s
    → ProducerStep n s h t
    → Pushes n t
ProducerStep-Pushes {n} {s} h lt v u (push_task {j = k} e le) =
    λ i j b. ground (arith, u i j b, e, le, count-append (is_task i j) s.pushed ((h, k) ∷ []))
ProducerStep-Pushes h lt v u (tasks_pushed {j = k} e le) =
    λ i j b. ground (arith, u i j b, e, le, v.bounded h k e)

ConsumerStep-Pushes :
    {n : Sizes} {s : Program} (h : ℕ) {t : Program} → Pushes n s → ConsumerStep n s h t → Pushes n t
ConsumerStep-Pushes h u (pop_task e a) = u
ConsumerStep-Pushes h u (call_task e) = u
ConsumerStep-Pushes h u (count_task e) = u
ConsumerStep-Pushes h u (detect_stop e a) = u
ConsumerStep-Pushes h u (yield_on e a) = u

Reach-Pushes : {n : Sizes} {s : Program} → Reach n s → Pushes n s
Reach-Pushes at_start = λ i j b. ground arith
Reach-Pushes (later r (by_main st)) = MainStep-Pushes (Reach-Phases r) (Reach-Pushes r) st
Reach-Pushes (later r (by_producer i lt st)) =
    ProducerStep-Pushes i lt (Reach-Tally (λ t. true) r) (Reach-Pushes r) st
Reach-Pushes (later r (by_consumer i lt st)) = ConsumerStep-Pushes i (Reach-Pushes r) st

-- Every task is called once: when `main` is at its end, with one consumer or more, then whatever the
-- interleaving, each task of each producer has been called exactly once, and the counter is the
-- number of producers times the tasks of each.
pub all_tasks_called :
    {n : Sizes} {s : Program} (i j : ℕ)
    → Reach n s
    → 0 < n.consumers
    → s.main ≡ finished
    → i < n.producers
    → j < n.tasks
    → (count (is_task i j) s.executed ≡ 1) × (s.counter ≡ n.producers * n.tasks)
all_tasks_called {n} {s} i j r some_consumer over in_producers in_tasks =
    let w = Reach-Phases r in
    let v = Reach-Tally (λ t. true) r in
    let pushed_all : (i : ℕ) → i < n.producers → s.producer i ≡ done =
      λ i lt. w.producers_done i (ground (arith, over, lt)) lt in
    let gone : (i : ℕ) → i < n.consumers → s.consumer i ≡ done =
      λ i lt. w.consumers_done i (ground (arith, over, lt)) lt in
    let empty = w.emptied 0 some_consumer (gone 0 some_consumer) in
    let called : (p : Task → Bool) → count p s.executed ≡ count p s.pushed = λ p. omega (
      arith,
      (Reach-Tally p r).kept,
      ap (count p) empty,
      total-const (held p) 0 n.consumers s.consumer (λ i lt. ap (held p) (gone i lt)),
    ) in
    (
      ground (arith, called (is_task i j), Reach-Pushes r i j in_producers, pushed_all i, in_tasks),
      omega (
        arith,
        v.counts,
        total-const uncounted 0 n.consumers s.consumer (λ i lt. ap uncounted (gone i lt)),
        v.pushes,
        total-const (progress n.tasks) n.tasks n.producers s.producer
            (λ i lt. ap (progress n.tasks) (pushed_all i lt)),
        called (λ t. true),
        count-all s.executed,
        count-all s.pushed,
      ),
    )
