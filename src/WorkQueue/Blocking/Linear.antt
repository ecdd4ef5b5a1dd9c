-- ===== src/WorkQueue/Blocking/Linear.antt =====
-- Consumers and producers beside the calls one after the other of WorkQueue/Order.
use svarog_io.Common.{
  ℕ, ◌≡◌, refl, sym, ap, ◌∙◌, List, [], ◌∷◌, ◌++◌, append_assoc, append-nil, arith,
}
use svarog_io.WorkQueue.{WorkQueue, new, push_item, pop, try_pop, stop, clear}
use svarog_io.WorkQueue.Order.{
  Call, pushes, pops, try_pops, stops, clears, handed, accepted, removed, after, run, all_accepted,
  all_removed, run-fifo,
}
use svarog_io.WorkQueue.Blocking.{
  System, Step, test, sleep, take, push_wake, push_none, push_refused, try_take, empty_out,
  stop_store, stop_notify, spurious, Reach, at_start, later,
}

module _ {ℓ} {A : Type ℓ} where
  -- The call that a step completes, if any, what it puts into the queue, and what its thread takes
  -- or throws away.
  unfoldable pub call_of : {n : ℕ} {s t : System A} → Step n s t → List (Call A)
  call_of (take i lt ready free e) = pops ∷ []
  call_of (push_wake i a lt here free ok) = pushes a ∷ []
  call_of (push_none a no_one free ok) = pushes a ∷ []
  call_of (push_refused a free refused) = pushes a ∷ []
  call_of (try_take free) = try_pops ∷ []
  call_of (empty_out free) = clears ∷ []
  call_of stop_store = stops ∷ []
  call_of _ = []

  unfoldable pub put : {n : ℕ} {s t : System A} → Step n s t → List A
  put (push_wake i a lt here free ok) = a ∷ []
  put (push_none a no_one free ok) = a ∷ []
  put _ = []

  unfoldable pub got : {n : ℕ} {s t : System A} → Step n s t → List A
  unfolding try_pop
  got (take i {q} {r} lt ready free e) = handed r
  got {s = s} (try_take free) = handed (try_pop s.queue).1
  got {s = s} (empty_out free) = s.queue.items
  got _ = []

  -- The same over a run.
  unfoldable pub history : {n : ℕ} {s : System A} → Reach n s → List (Call A)
  unfolding call_of
  history at_start = []
  history (later r x) = history r ++ call_of x

  unfoldable pub put_by : {n : ℕ} {s : System A} → Reach n s → List A
  unfolding put
  put_by at_start = []
  put_by (later r x) = put_by r ++ put x

  unfoldable pub got_by : {n : ℕ} {s : System A} → Reach n s → List A
  unfolding got
  got_by at_start = []
  got_by (later r x) = got_by r ++ got x

  run-append :
      (q : WorkQueue A) (cs ds : List (Call A))
      → (run q (cs ++ ds) ≡ run (run q cs) ds)
        × (all_accepted q (cs ++ ds) ≡ all_accepted q cs ++ all_accepted (run q cs) ds)
        × (all_removed q (cs ++ ds) ≡ all_removed q cs ++ all_removed (run q cs) ds)
  unfolding run all_accepted all_removed
  run-append q [] ds = (refl, refl, refl)
  run-append q (c ∷ cs) ds =
      let (same, accepts, removes) = run-append (after q c) cs ds in
      (
        same,
        ap (◌++◌ (accepted q c)) accepts ∙ sym (append_assoc (accepted q c) _ _),
        ap (◌++◌ (removed q c)) removes ∙ sym (append_assoc (removed q c) _ _),
      )

  -- One step against the call that it completes.
  step_linear :
      {n : ℕ} {s t : System A} (x : Step n s t)
      → (run s.queue (call_of x) ≡ t.queue)
        × (all_accepted s.queue (call_of x) ≡ put x)
        × (all_removed s.queue (call_of x) ≡ got x)
  unfolding run all_accepted all_removed call_of put got accepted removed after push_item pop
      try_pop stop clear
  step_linear (test i lt ready free quiet) = (refl, refl, refl)
  step_linear (sleep i lt here) = (refl, refl, refl)
  step_linear (take i {q} {r} lt ready free e) =
      (ground (arith, e), refl, ground (arith, e, append-nil (handed r)))
  step_linear (push_wake i a lt here free ok) = (refl, ground (arith, ok), refl)
  step_linear (push_none a no_one free ok) = (refl, ground (arith, ok), refl)
  step_linear (push_refused a free refused) =
      (ground (arith, refused), ground (arith, refused), refl)
  step_linear {s = s} (try_take free) = (refl, refl, append-nil _)
  step_linear {s = s} (empty_out free) = (refl, refl, append-nil s.queue.items)
  step_linear stop_store = (refl, refl, refl)
  step_linear (stop_notify due) = (refl, refl, refl)
  step_linear (spurious i lt here) = (refl, refl, refl)

  linear :
      {n : ℕ} {s : System A} (r : Reach n s)
      → (run new (history r) ≡ s.queue)
        × (all_accepted new (history r) ≡ put_by r)
        × (all_removed new (history r) ≡ got_by r)
  unfolding history put_by got_by run all_accepted all_removed
  linear at_start = (refl, refl, refl)
  linear (later {s} r x) =
      let (same, accepts, removes) = linear r in
      let (same1, accepts1, removes1) = step_linear x in
      let (same2, accepts2, removes2) = run-append new (history r) (call_of x) in
      (
        same2 ∙ ap (λ q. run q (call_of x)) same ∙ same1,
        accepts2
            ∙ (λ i. accepts i ++ all_accepted (same i) (call_of x))
            ∙ ap (◌++◌ (put_by r)) accepts1,
        removes2
            ∙ (λ i. removes i ++ all_removed (same i) (call_of x))
            ∙ ap (◌++◌ (got_by r)) removes1,
      )

  -- Concurrent calls on a queue are calls one after the other: whatever the interleaving of
  -- consumers inside `pop` with producers and the other calls, the completed calls, in the order of
  -- their steps, lead a new queue to the one that is there, accept what the producers put in, and
  -- remove what was taken or cleared away; and what was put in is, in its order, what was removed
  -- followed by what is left.
  pub history_linear :
      {n : ℕ} {s : System A} (r : Reach n s)
      → (run new (history r) ≡ s.queue)
        × (all_accepted new (history r) ≡ put_by r)
        × (all_removed new (history r) ≡ got_by r)
        × (put_by r ≡ got_by r ++ s.queue.items)
  history_linear {n} {s} r =
      let (same, accepts, removes) = linear r in
      (
        same,
        accepts,
        removes,
        sym accepts ∙ run-fifo new (history r) ∙ (λ i. removes i ++ (same i).items),
      )
