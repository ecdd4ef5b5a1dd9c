-- ===== src/Tests/Waits.antt =====
-- A steady timer under `run`, on a clock that shows 50 at its first reading and one more at each.
use svarog_io.Common.{ℕ, ◌+◌, ◌≤◌, ◌≡◌, refl, false, List, [], ◌∷◌, ◌++◌, arith}
use svarog_io.Outcome.{returned}
use svarog_io.IoContext.{Context, Env, Item, fired, new, run}
use svarog_io.Timers.Steady.{make_at, async_wait}
use svarog_io.Timers.Firing.{wait_fires}

abbrev log_call : Item ℕ → List (Item ℕ) → List (Item ℕ)
log_call item w = w ++ item ∷ []

abbrev counting : Env ℕ (List (Item ℕ))
counting = record {
  clock = λ k. 50 + k;
  call = λ item c. returned (record c { world = log_call item c.world }) tt;
  reactor_run_one = λ t c. returned c 0;
}

abbrev fresh : Context ℕ (List (Item ℕ))
fresh = new {W = List (Item ℕ)} []

wait_fires_example :
    (c' : Context ℕ (List (Item ℕ))) × (run counting 6
        (record fresh { timers = (async_wait 7 (make_at 55) fresh.timers).1 })
      ≡ returned c' tt)
    × ((c'.world ≡ fired 7 ∷ [])
        × (c'.timers.timers ≡ [])
        × (c'.handlers.items ≡ [])
        × ((k : ℕ) × (55 ≤ 50 + k) × (c'.reads ≡ k + 2)))
    × (c'.is_current ≡ false)
unfolding make_at
wait_fires_example =
    wait_fires counting log_call (λ item c. refl) (λ t c. refl) (λ i j h. omega arith) 3 6 fresh
      (make_at 55) 7 refl refl refl refl refl refl (omega arith) (omega arith)
