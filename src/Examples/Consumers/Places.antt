-- ===== src/Examples/Consumers/Places.antt =====
-- What the place of `main` says of the threads and the queue.
use svarog_io.Common.{ℕ, suc, ◌<◌, ◌≤◌, ◌≡◌, refl, Bool, true, false, [], arith, ℕ_discrete}
use svarog_io.WorkQueue.{stop}
use svarog_io.Examples.Consumers.{
  Sizes, unborn, done, Main, starts_producers, starts_consumers, joins_producers, stopping,
  joins_consumers, finished, Program, start, MainStep, start_producer, producers_started,
  start_consumer, consumers_started, join_producer, producers_joined, stop_queue, join_consumer,
  consumers_joined,
}

-- How many threads `main` has started or joined.
abbrev pub born_producers : Sizes → Main → ℕ
born_producers n (starts_producers k) = k
born_producers n _ = n.producers

abbrev pub born_consumers : Sizes → Main → ℕ
born_consumers n (starts_producers k) = 0
born_consumers n (starts_consumers k) = k
born_consumers n _ = n.consumers

abbrev pub joined_producers : Sizes → Main → ℕ
joined_producers n (starts_producers k) = 0
joined_producers n (starts_consumers k) = 0
joined_producers n (joins_producers k) = k
joined_producers n _ = n.producers

abbrev pub joined_consumers : Sizes → Main → ℕ
joined_consumers n (joins_consumers k) = k
joined_consumers n finished = n.consumers
joined_consumers n _ = 0

abbrev pub has_stopped : Main → Bool
has_stopped (joins_consumers k) = true
has_stopped finished = true
has_stopped _ = false

pub record Phases (n : Sizes) (s : Program) : Type 0 where
  pub stopped_by_main : s.queue.is_stopped ≡ has_stopped s.main
  pub producers_unborn :
      (i : ℕ) → born_producers n s.main ≤ i → i < n.producers → s.producer i ≡ unborn
  pub consumers_unborn :
      (i : ℕ) → born_consumers n s.main ≤ i → i < n.consumers → s.consumer i ≡ unborn
  pub producers_done :
      (i : ℕ) → i < joined_producers n s.main → i < n.producers → s.producer i ≡ done
  pub consumers_done :
      (i : ℕ) → i < joined_consumers n s.main → i < n.consumers → s.consumer i ≡ done
  pub drained : (i : ℕ) → i < n.consumers → s.consumer i ≡ done → s.queue.is_stopped ≡ true
  pub emptied : (i : ℕ) → i < n.consumers → s.consumer i ≡ done → s.queue.items ≡ []

pub start-Phases : (n : Sizes) → Phases n start
start-Phases n = record {
  stopped_by_main = refl;
  producers_unborn = λ i le lt. refl;
  consumers_unborn = λ i le lt. refl;
  producers_done = λ i lt b. absurd (omega (arith, lt));
  consumers_done = λ i lt b. absurd (omega (arith, lt));
  drained = λ i lt e. absurd (ground (arith, e));
  emptied = λ i lt e. absurd (ground (arith, e));
}

-- `main` goes on, and no thread is started.
main-Phases :
    {n : Sizes} {s : Program} (m : Main)
    → Phases n s
    → has_stopped m ≡ has_stopped s.main
    → ((i : ℕ) → born_producers n m ≤ i → i < n.producers → born_producers n s.main ≤ i)
    → ((i : ℕ) → born_consumers n m ≤ i → i < n.consumers → born_consumers n s.main ≤ i)
    → ((i : ℕ) → i < joined_producers n m → i < n.producers → s.producer i ≡ done)
    → ((i : ℕ) → i < joined_consumers n m → i < n.consumers → s.consumer i ≡ done)
    → Phases n (record s { main = m })
main-Phases m v same born_p born_c joined_p joined_c = record {
  stopped_by_main = ground (arith, v.stopped_by_main, same);
  producers_unborn = λ i le b. v.producers_unborn i (born_p i le b) b;
  consumers_unborn = λ i le b. v.consumers_unborn i (born_c i le b) b;
  producers_done = joined_p;
  consumers_done = joined_c;
  drained = v.drained;
  emptied = v.emptied;
}

pub MainStep-Phases : {n : Sizes} {s t : Program} → Phases n s → MainStep n s t → Phases n t
unfolding stop
MainStep-Phases v (start_producer e lt) = record {
  stopped_by_main = ground (arith, v.stopped_by_main, e);
  producers_unborn = λ i le b. ground (arith, v.producers_unborn i, e, le, b);
  consumers_unborn = λ i le b. ground (arith, v.consumers_unborn i, e, le, b);
  producers_done = λ i c b. absurd (omega (arith, c));
  consumers_done = λ i c b. absurd (omega (arith, c));
  drained = v.drained;
  emptied = v.emptied;
}
MainStep-Phases v (producers_started e le) =
    main-Phases (starts_consumers 0) v (ground (arith, e)) (λ i c b. ground (arith, e, le, b))
      (λ i c b. ground (arith, e)) (λ i c b. absurd (omega (arith, c)))
      (λ i c b. absurd (omega (arith, c)))
MainStep-Phases v (start_consumer {k} e lt) = record {
  stopped_by_main = ground (arith, v.stopped_by_main, e);
  producers_unborn = λ i le b. ground (arith, v.producers_unborn i, e, le, b);
  consumers_unborn = λ i le b. ground (arith, v.consumers_unborn i, e, le, b);
  producers_done = λ i c b. absurd (omega (arith, c));
  consumers_done = λ i c b. absurd (omega (arith, c));
  drained = λ i b d. v.drained i b (ground (arith, d));
  emptied = λ i b d. v.emptied i b (ground (arith, d));
}
MainStep-Phases v (consumers_started e le) =
    main-Phases (joins_producers 0) v (ground (arith, e)) (λ i c b. ground (arith, e, c))
      (λ i c b. ground (arith, e, le, b)) (λ i c b. absurd (omega (arith, c)))
      (λ i c b. absurd (omega (arith, c)))
MainStep-Phases v (join_producer {k} e lt d) =
    main-Phases (joins_producers (suc k)) v (ground (arith, e)) (λ i c b. ground (arith, e, c))
      (λ i c b. ground (arith, e, c))
      (λ i c b. ground (arith, e, c, b, d, v.producers_done i, ℕ_discrete i k))
      (λ i c b. absurd (omega (arith, c)))
MainStep-Phases v (producers_joined e le) =
    main-Phases stopping v (ground (arith, e)) (λ i c b. ground (arith, e, c))
      (λ i c b. ground (arith, e, c)) (λ i c b. v.producers_done i (ground (arith, e, le, b)) b)
      (λ i c b. absurd (omega (arith, c)))
MainStep-Phases v (stop_queue e) = record {
  stopped_by_main = refl;
  producers_unborn = λ i le b. ground (arith, v.producers_unborn i, e, le, b);
  consumers_unborn = λ i le b. ground (arith, v.consumers_unborn i, e, le, b);
  producers_done = λ i c b. v.producers_done i (ground (arith, e, c)) b;
  consumers_done = λ i c b. absurd (omega (arith, c));
  drained = λ i b d. refl;
  emptied = v.emptied;
}
MainStep-Phases v (join_consumer {k} e lt d) =
    main-Phases (joins_consumers (suc k)) v (ground (arith, e)) (λ i c b. ground (arith, e, c))
      (λ i c b. ground (arith, e, c)) (λ i c b. v.producers_done i (ground (arith, e, c)) b)
      (λ i c b. ground (arith, e, c, b, d, v.consumers_done i, ℕ_discrete i k))
MainStep-Phases v (consumers_joined e le) =
    main-Phases finished v (ground (arith, e)) (λ i c b. ground (arith, e, c))
      (λ i c b. ground (arith, e, c)) (λ i c b. v.producers_done i (ground (arith, e, c)) b)
      (λ i c b. v.consumers_done i (ground (arith, e, le, b)) b)
