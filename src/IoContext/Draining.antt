-- ===== src/IoContext/Draining.antt =====
-- The loops that call handlers: order, count and end.
use svarog_io.Common.{
  ℕ, zero, suc, ◌+◌, ◌≤◌, ◌<◌, ◌≡◌, refl, Bool, true, false, List, [], ◌∷◌, ◌++◌, arith, length,
  length-append, ap,
}
use svarog_io.Outcome.{returned}
use svarog_io.WorkQueue.{try_pop, is_idle}
use svarog_io.TimerQueue
use svarog_io.TimerQueue.{TimerEntry, has_expired, size}
use svarog_io.IoContext.Expiring.{accepted_fired, handlers_of, AllDue, process_timers_moves}
use svarog_io.IoContext.{
  Context, Env, Item, drain, run, run_loop, poll, has_pending_work, process_timers,
  process_timers_loop, calculate_timeout,
}

-- Handlers that leave the context alone: calling one changes the rest of the world, as `act` says,
-- and returns.
abbrev pub Plain {ℓ} : {H W : Type ℓ} → Env H W → (Item H → W → W) → Type ℓ
Plain {H} {W} env act =
    (item : Item H) (c : Context H W)
    → env.call item c ≡ returned (record c { world = act item c.world }) tt

-- The handlers called on one world after the other, from the first to the last.
unfoldable pub call_all {ℓ} : {H W : Type ℓ} → (Item H → W → W) → List (Item H) → W → W
call_all act [] w = w
call_all act (x ∷ xs) w = call_all act xs (act x w)

length-accepted {ℓ} :
    {H : Type ℓ} (stopped : Bool) (hs : List H) → length (accepted_fired stopped hs) ≤ length hs
length-accepted true hs = omega arith
length-accepted false [] = omega arith
length-accepted false (h ∷ hs) = omega (arith, length-accepted false hs)

length-handlers_of {ℓ} :
    {H : Type ℓ} (xs : List (TimerEntry H)) → length (handlers_of xs) ≡ length xs
length-handlers_of [] = refl
length-handlers_of (x ∷ xs) = ap suc (length-handlers_of xs)

-- A context with its queued items and its world replaced.
abbrev pub at_items {ℓ} : {H W : Type ℓ} → Context H W → List (Item H) → W → Context H W
at_items c xs w = record c {
  handlers = record { items = xs; is_stopped = c.handlers.is_stopped };
  world = w;
}

module _ {ℓ} {H W : Type ℓ} (env : Env H W) where
  -- A context in which nothing is pending.
  pub loop_idle :
      (fuel : ℕ) (c : Context H W)
      → c.handlers.items ≡ []
      → c.work_count ≡ 0
      → c.timers.timers ≡ []
      → 0 < fuel
      → run_loop env fuel c ≡ returned c tt
  unfolding run_loop has_pending_work is_idle TimerQueue.is_idle
  loop_idle zero c e f g enough = absurd (omega arith)
  loop_idle (suc fuel) c e f g enough = ground arith

  pub timers_idle :
      (fuel : ℕ) (c : Context H W)
      → c.timers.timers ≡ []
      → 0 < fuel
      → process_timers env fuel c ≡ returned (record c { reads = suc c.reads }) tt
  unfolding process_timers process_timers_loop has_expired
  timers_idle zero c g enough = absurd (omega arith)
  timers_idle (suc fuel) c g enough = ground arith

  timeout_busy :
      (c : Context H W) → is_idle c.handlers ≡ false → calculate_timeout env c ≡ returned c 0
  unfolding calculate_timeout
  timeout_busy c busy = ground arith

module _ {ℓ} {H W : Type ℓ} (env : Env H W) (act : Item H → W → W) (plain : Plain env act) where
  drain_items :
      (fuel : ℕ) (c : Context H W) (xs : List (Item H)) (w : W)
      → length xs < fuel
      → drain env fuel (at_items c xs w) ≡ returned (at_items c [] (call_all act xs w)) (length xs)
  unfolding drain try_pop call_all
  drain_items zero c xs w enough = absurd (omega arith)
  drain_items (suc fuel) c [] w enough = refl
  drain_items (suc fuel) c (x ∷ xs) w enough =
      ground (arith, plain x (at_items c xs w), drain_items fuel c xs (act x w))

  -- Plain handlers are all called, in the order of the queue: with more fuel than queued items the
  -- loop returns their number, and leaves an empty queue and the world that they made.
  pub drain_in_order :
      (fuel : ℕ) (c : Context H W)
      → length c.handlers.items < fuel
      → drain env fuel c
        ≡ returned (at_items c [] (call_all act c.handlers.items c.world)) (length c.handlers.items)
  drain_in_order fuel c enough = drain_items fuel c c.handlers.items c.world enough

  module _ (still : (t : ℕ) (c : Context H W) → env.reactor_run_one t c ≡ returned c 0) where
    round_calls_all :
        (fuel : ℕ) (c : Context H W) (x : Item H) (xs : List (Item H)) (w : W)
        → c.is_stopped ≡ false
        → c.work_count ≡ 0
        → c.timers.timers ≡ []
        → length (x ∷ xs) < fuel
        → run_loop env (suc fuel) (at_items c (x ∷ xs) w)
          ≡ returned (at_items (record c { reads = suc c.reads }) [] (call_all act (x ∷ xs) w)) tt
    unfolding run_loop has_pending_work is_idle
    round_calls_all fuel c x xs w live free no_timers enough = ground (
      arith,
      timers_idle env fuel (at_items c (x ∷ xs) w) no_timers,
      timeout_busy env (at_items (record c { reads = suc c.reads }) (x ∷ xs) w) refl,
      still 0 (at_items (record c { reads = suc c.reads }) (x ∷ xs) w),
      drain_items fuel (record c { reads = suc c.reads }) (x ∷ xs) w enough,
      loop_idle env fuel (at_items (record c { reads = suc c.reads }) [] (call_all act (x ∷ xs) w))
          refl free no_timers,
    )

    run_items :
        (fuel : ℕ) (c : Context H W) (xs : List (Item H)) (w : W)
        → c.is_stopped ≡ false
        → c.work_count ≡ 0
        → c.timers.timers ≡ []
        → length xs + 1 < fuel
        → (c' : Context H W) × (run env fuel (at_items c xs w) ≡ returned c' tt)
          × (c'.handlers.items ≡ [])
          × (c'.world ≡ call_all act xs w)
          × (c'.is_current ≡ false)
    unfolding run call_all
    run_items zero c xs w live free no_timers enough = absurd (omega arith)
    run_items (suc fuel) c [] w live free no_timers enough = (
      record (at_items c [] w) { is_current = false },
      ground (
        arith,
        loop_idle env (suc fuel) (at_items (record c { is_current = true }) [] w) refl free
            no_timers,
      ),
      refl,
      refl,
      refl,
    )
    run_items (suc fuel) c (x ∷ xs) w live free no_timers enough = (
      record (at_items c [] (call_all act (x ∷ xs) w)) { reads = suc c.reads; is_current = false },
      ground
          (arith, round_calls_all fuel (record c { is_current = true }) x xs w live free no_timers),
      refl,
      refl,
      refl,
    )

    -- A context with no timer and no work guard, over plain handlers and a reactor that has nothing
    -- to do: `run` returns, with more fuel than queued items and one round; it has called every
    -- queued handler once, in order, and this thread has left the context.
    pub run_calls_all :
        (fuel : ℕ) (c : Context H W)
        → c.is_stopped ≡ false
        → c.work_count ≡ 0
        → c.timers.timers ≡ []
        → length c.handlers.items + 1 < fuel
        → (c' : Context H W) × (run env fuel c ≡ returned c' tt)
          × (c'.handlers.items ≡ [])
          × (c'.world ≡ call_all act c.handlers.items c.world)
          × (c'.is_current ≡ false)
    run_calls_all fuel c live free no_timers enough =
        run_items fuel c c.handlers.items c.world live free no_timers enough

    -- `poll` returns after one pass, given a clock that never goes back and fuel above the number of
    -- queued items and pending timers together. Over plain handlers and an idle reactor the timers of
    -- the set are those taken, followed by those left: each taken one was due at a reading of the
    -- clock in this call, and of those left none is found expired at its first reading. It calls the
    -- queued handlers and then those of the taken timers, both in order (these not if the queue is
    -- stopped), returns how many it called, and leaves the queue empty and the thread outside.
    pub poll_calls_all :
        (fuel : ℕ) (c : Context H W)
        → ((i j : ℕ) → i ≤ j → env.clock i ≤ env.clock j)
        → length c.handlers.items + size c.timers < fuel
        → (c' : Context H W) × (taken : List (TimerEntry H)) × (let items =
              c.handlers.items ++ accepted_fired c.handlers.is_stopped (handlers_of taken) in
            (poll env fuel c ≡ returned c' (length items))
            × (c'.world ≡ call_all act items c.world))
          × (c.timers.timers ≡ taken ++ c'.timers.timers)
          × AllDue env.clock c.reads c'.reads taken
          × (has_expired (env.clock c.reads) c'.timers ≡ false)
          × (c'.handlers.items ≡ [])
          × (c'.is_current ≡ false)
    unfolding poll size
    poll_calls_all fuel c mono enough =
        let start : Context H W = record c { is_current = true } in
        let (c1, taken, done, quiet, split, due, _, items, flag, same) =
          process_timers_moves env fuel start mono (omega arith) in
        let hs = handlers_of taken in
        let few : length c1.handlers.items < fuel = ground (
          arith,
          length-append c.handlers.items (accepted_fired c.handlers.is_stopped hs),
          length-accepted c.handlers.is_stopped hs,
          length-handlers_of taken,
          ap length split,
          length-append taken c1.timers.timers,
        ) in
        (
          record (at_items c1 [] (call_all act c1.handlers.items c1.world)) { is_current = false },
          taken,
          (
            ground (arith, done, still 0 c1, drain_in_order fuel c1 few, items),
            ground (arith, items, ap (λ (d : Context H W). d.world) same),
          ),
          split,
          due,
          quiet,
          refl,
          refl,
        )
