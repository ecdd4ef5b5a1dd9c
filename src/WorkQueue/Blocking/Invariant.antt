-- ===== src/WorkQueue/Blocking/Invariant.antt =====
-- What holds between two steps of the consumers and producers of a work queue.
use svarog_io.Common.{ℕ, ◌≤◌, ◌≡◌, [], ◌∷◌, false, some, arith, length, length-append}
use svarog_io.Common.Family.{total, total-update}
use svarog_io.WorkQueue.{push_item, pop_ready, pop, try_pop, stop, clear}
use svarog_io.WorkQueue.Blocking.{
  Pc, outside, holding, asleep, woken, System, Step, test, sleep, take, push_wake, push_none,
  push_refused, try_take, empty_out, stop_store, stop_notify, spurious, Reach, at_start, later,
}

abbrev pub awake : Pc → ℕ
awake woken = 1
awake _ = 0

pub record Inv {ℓ} {A : Type ℓ} (n : ℕ) (s : System A) : Type ℓ where
  -- A consumer that is about to sleep has the mutex, and has seen an empty queue.
  pub held : (i : ℕ) → s.pc i ≡ holding → (s.lock ≡ some i) × (s.queue.items ≡ [])
  -- While anyone sleeps beside a queue that is not stopped, each item has a consumer on its way.
  pub served :
      (i : ℕ)
      → s.pc i ≡ asleep
      → s.queue.is_stopped ≡ false
      → length s.queue.items ≤ total awake n s.pc

module _ {ℓ} {A : Type ℓ} where
  pub Step-Inv : {n : ℕ} {s t : System A} → Step n s t → Inv n s → Inv n t
  unfolding push_item pop_ready pop try_pop stop clear
  Step-Inv {n} {s} (test i lt ready free quiet) v = record {
    held = λ j e. ground (arith, v.held j);
    served = λ j e live. ground (arith, v.served j);
  }
  Step-Inv {n} {s} (sleep i lt here) v = record {
    held = λ j e. ground (arith, v.held j, v.held i);
    served = λ j e live. ground (arith, v.held i);
  }
  Step-Inv {n} {s} (take i lt ready free e) v = record {
    held = λ j e'. ground (arith, v.held j);
    served = λ j e' live. ground (arith, v.served j, total-update awake n s.pc i outside lt);
  }
  Step-Inv {n} {s} (push_wake i a lt here free ok) v = record {
    held = λ j e. ground (arith, v.held j);
    served = λ j e live. ground (
      arith,
      v.served j,
      v.served i,
      total-update awake n s.pc i woken lt,
      length-append s.queue.items (a ∷ []),
    );
  }
  Step-Inv (push_none a no_one free ok) v = record {
    held = λ j e. ground (arith, v.held j);
    served = λ j e live. absurd (no_one j e);
  }
  Step-Inv (push_refused a free refused) v = v
  Step-Inv (try_take free) v = record {
    held = λ j e. ground (arith, v.held j);
    served = λ j e live. ground (arith, v.served j);
  }
  Step-Inv (empty_out free) v = record {
    held = λ j e. ground (arith, v.held j);
    served = λ j e live. ground arith;
  }
  Step-Inv stop_store v = record { held = v.held; served = λ j e live. cc }
  Step-Inv {s} (stop_notify due) v = record {
    held = λ j e. ground (arith, v.held j);
    served = λ j e live. ground arith;
  }
  Step-Inv {n} {s} (spurious i lt here) v = record {
    held = λ j e. ground (arith, v.held j);
    served =
        λ j e live. ground (arith, v.served j, v.served i, total-update awake n s.pc i woken lt);
  }

  pub Reach-Inv : {n : ℕ} {s : System A} → Reach n s → Inv n s
  Reach-Inv at_start = record { held = λ i e. cc; served = λ i e live. cc }
  Reach-Inv (later r st) = Step-Inv st (Reach-Inv r)
