-- ===== src/ThreadPool/Strands/Projection.antt =====
-- A strand on a pool is a strand, and a pool.
use svarog_io.Common.{
  ℕ, zero, suc, ◌+◌, ◌-◌, ◌<◌, ◌≤◌, ◌≡◌, ◌≢◌, refl, sym, ◌∙◌, ◌⊎◌, inl, inr, Bool, true, false,
  List, [], ◌∷◌, ◌++◌, arith, ℕ_discrete, Bool-cases,
}
use mathlib.Core.Path.{subst}
use svarog_io.WorkQueue.{WorkQueue, value, push_item, try_pop, clear}
use svarog_io.Strand
use svarog_io.Strand.{idle}
use svarog_io.ThreadPool
use svarog_io.ThreadPool.{Pc, Pool, calling, draining, clearing}
use svarog_io.ThreadPool.Strands.{
  Item, next, other, count_next, Joint, Runs, Step, inside, submit, refused, take_next, drop_next,
  beside, Reach, at_start, later,
}

-- A step of thread `i` leaves the other threads where they are.
pub Move-others {ℓ} :
    {H : Type ℓ} {s : Strand.System H} (i j : ℕ) {t : Strand.System H}
    → Strand.Move s i t
    → i ≢ j
    → t.threads j ≡ s.threads j
Move-others i j (Strand.post_push h c q) d = ground (arith, d)
Move-others i j (Strand.post_claim c q) d = ground (arith, d)
Move-others i j (Strand.post_leave c q) d = ground (arith, d)
Move-others i j (Strand.post_submit c) d = ground (arith, d)
Move-others i j (Strand.post_rejected c) d = ground (arith, d)
Move-others i j (Strand.dispatch_inline a b c e) d = ground (arith, d)
Move-others i j (Strand.dispatch_return a b) d = ground (arith, d)
Move-others i j (Strand.dispatch_post h a b c) d = ground (arith, d)
Move-others i j (Strand.enter a b) d = ground (arith, d)
Move-others i j (Strand.store_id a) d = ground (arith, d)
Move-others i j (Strand.pop_handler a b) d = ground (arith, d)
Move-others i j (Strand.pop_nothing a b) d = ground (arith, d)
Move-others i j (Strand.handler_end a b c) d = ground (arith, d)
Move-others i j (Strand.clear_id a) d = ground (arith, d)
Move-others i j (Strand.release a) d = ground (arith, d)
Move-others i j (Strand.leave_empty a b) d = ground (arith, d)
Move-others i j (Strand.see_items a b) d = ground (arith, d)
Move-others i j (Strand.retake a b) d = ground (arith, d)
Move-others i j (Strand.leave_to_other a b) d = ground (arith, d)
Move-others i j (Strand.restore_id a) d = ground (arith, d)

abbrev is_calling : Pc → Bool
is_calling calling = true
is_calling _ = false

calling_or : (p : Pc) → (p ≡ calling) ⊎ (p ≢ calling)
calling_or p = elim (Bool-cases (is_calling p)) [
  | inl yes_call ↦ inl (ground (arith, yes_call))
  | inr no_call ↦ inr (λ e. ground (arith, no_call, e))
]

count_next-append {ℓ} :
    {K : Type ℓ} (xs ys : List (Item K)) → count_next (xs ++ ys) ≡ count_next xs + count_next ys
count_next-append [] ys = omega arith
count_next-append (next ∷ xs) ys = ground (arith, count_next-append xs ys)
count_next-append (other k ∷ xs) ys = count_next-append xs ys

count_next-push {ℓ} :
    {K : Type ℓ} (q : WorkQueue (Item K))
    → (push_item next q).1 ≡ true
    → count_next (push_item next q).0.items ≡ suc (count_next q.items)
unfolding push_item
count_next-push q ok = ground (arith, ok, count_next-append q.items (next ∷ []))

count_next-pop {ℓ} :
    {K : Type ℓ} (q q' : WorkQueue (Item K))
    → try_pop q ≡ (q', value next)
    → count_next q.items ≡ suc (count_next q'.items)
unfolding try_pop
count_next-pop q q' e = ground (arith, e)

-- The executor throws away every call that waits.
discard_all {ℓ} :
    {H : Type ℓ} {m : ℕ} (s : Strand.System H) (k l : ℕ)
    → Strand.Reach m (record s { scheduled = k; lost = l })
    → Strand.Reach m (record s { scheduled = 0; lost = l + k })
discard_all {m = m} s zero l r =
    subst (λ x. Strand.Reach m (record s { scheduled = 0; lost = x })) (omega arith) r
discard_all {m = m} s (suc k) l r =
    subst (λ x. Strand.Reach m (record s { scheduled = 0; lost = x })) (omega arith)
      (discard_all s k (suc l) (Strand.later r (Strand.discard refl)))

module _ {ℓ} {H K : Type ℓ} where
  -- The two parts of a run, and what ties them: the calls of `execute_next` that wait are those in
  -- the pool's queue, and a worker that is in no handler is in no step of the strand.
  pub record Split (n m : ℕ) (s : Joint H K) : Type ℓ where
    pub pool_run : ThreadPool.Reach n s.pool
    pub strand_run : Strand.Reach m s.strand
    pub counted : s.strand.scheduled ≡ count_next s.pool.handlers.items
    pub outside : (i : ℕ) → i < n → s.pool.pc i ≢ calling → s.strand.threads i ≡ idle

  -- A thread that runs is none of the workers outside handlers.
  still_outside :
      {n m : ℕ} {s : Joint H K} (i : ℕ) {t : Strand.System H}
      → Split n m s
      → Runs n s i
      → Strand.Move s.strand i t
      → (j : ℕ) → j < n
      → s.pool.pc j ≢ calling
      → t.threads j ≡ idle
  still_outside {n} {s = s} i v runs mv j lt away = elim (ℕ_discrete i j) [
    | yes same ↦ elim runs [
      | inl beyond ↦ absurd (omega (arith, same, beyond, lt))
      | inr called ↦ absurd (away (subst (λ x. s.pool.pc x ≡ calling) same called))
    ]
    | no differ ↦ Move-others i j mv differ ∙ v.outside j lt away
  ]

  Step-Split : {n m : ℕ} {s t : Joint H K} → n ≤ m → Split n m s → Step n m s t → Split n m t
  unfolding clear
  Step-Split few v (inside i lt runs mv same none_lost) = record {
    pool_run = v.pool_run;
    strand_run = Strand.later v.strand_run (Strand.pick i lt mv);
    counted = same ∙ v.counted;
    outside = still_outside i v runs mv;
  }
  Step-Split {s = s} few v (submit i lt runs at ok) = record {
    pool_run = ThreadPool.later v.pool_run (ThreadPool.post next ok);
    strand_run = Strand.later v.strand_run (Strand.pick i lt (Strand.post_submit at));
    counted = omega (arith, v.counted, count_next-push s.pool.handlers ok);
    outside = still_outside i v runs (Strand.post_submit at);
  }
  Step-Split few v (refused i lt runs at full) = record {
    pool_run = v.pool_run;
    strand_run = Strand.later v.strand_run (Strand.pick i lt (Strand.post_rejected at));
    counted = v.counted;
    outside = still_outside i v runs (Strand.post_rejected at);
  }
  Step-Split {s = s} few v (take_next i {q} lt at taken) =
      let waits : s.strand.scheduled ≡ suc (s.strand.scheduled - 1) =
        omega (arith, v.counted, count_next-pop s.pool.handlers q taken) in
      let idle_there = v.outside i lt (λ called. ground (arith, called, at)) in
      let enters = Strand.enter idle_there waits in
      record {
        pool_run = ThreadPool.later v.pool_run (ThreadPool.work i lt (ThreadPool.take at taken));
        strand_run = Strand.later v.strand_run (Strand.pick i (omega arith) enters);
        counted = omega (arith, v.counted, count_next-pop s.pool.handlers q taken);
        outside = λ j ltj away. elim (ℕ_discrete i j) [
          | yes same ↦ absurd (away (ground (arith, same)))
          | no differ ↦
              ground (arith, differ, v.outside j ltj (λ e. away (ground (arith, differ, e))))
        ];
      }
  Step-Split {s = s} few v (drop_next i lt at) = record {
    pool_run = ThreadPool.later v.pool_run (ThreadPool.work i lt (ThreadPool.clear_handlers at));
    strand_run = discard_all s.strand s.strand.scheduled s.strand.lost v.strand_run;
    counted = refl;
    outside = λ j ltj away. v.outside j ltj (λ called. elim (ℕ_discrete i j) [
      | yes same ↦ ground (arith, same, at, called)
      | no differ ↦ away (ground (arith, differ, called))
    ]);
  }
  Step-Split {s = s} few v (beside {p} st same idles) = record {
    pool_run = ThreadPool.later v.pool_run st;
    strand_run = v.strand_run;
    counted = v.counted ∙ sym same;
    outside = λ j lt away. elim (calling_or (s.pool.pc j)) [
      | inl called ↦ idles j called away
      | inr before ↦ v.outside j lt before
    ];
  }

  pub Reach-Split : {n m : ℕ} {s : Joint H K} → n ≤ m → Reach n m s → Split n m s
  Reach-Split few at_start = record {
    pool_run = ThreadPool.here;
    strand_run = Strand.here;
    counted = refl;
    outside = λ i lt away. refl;
  }
  Reach-Split few (later r st) = Step-Split few (Reach-Split few r) st
