-- ===== src/IoContext/Restarting.antt =====
-- What `stop`, `restart` and exceptions leave behind.
use svarog_io.Common.{ℕ, suc, ◌<◌, ◌≡◌, refl, true, false, List, [], ◌∷◌, arith}
use svarog_io.Contracts.{Build}
use svarog_io.Outcome.{returned, threw}
use svarog_io.WorkQueue.{try_pop, is_idle, push_item}
use svarog_io.WorkQueue
use svarog_io.IoContext.{
  Context, Env, Item, posted, run, run_one, stop, restart, post, dispatch, running_in_this_thread,
}
use svarog_io.IoContext.Draining.{timers_idle, loop_idle}

-- Posts after one another.
unfoldable pub post_all {ℓ} : {H W : Type ℓ} → List H → Context H W → Context H W
post_all [] c = c
post_all (h ∷ hs) c = post_all hs (post h c)

module _ {ℓ} {H W : Type ℓ} where
  post_stopped : (h : H) (c : Context H W) → c.handlers.is_stopped ≡ true → post h c ≡ c
  unfolding post push_item
  post_stopped h c dead = ground arith

  post_all_stopped :
      (hs : List H) (c : Context H W) → c.handlers.is_stopped ≡ true → post_all hs c ≡ c
  unfolding post_all
  post_all_stopped [] c dead = refl
  post_all_stopped (h ∷ hs) c dead = rw (post_stopped h c dead) (post_all_stopped hs c dead)

  -- `restart` does not bring a stopped context back: after `stop` and `restart` it says that it is
  -- not stopped, yet every handler posted from then on is thrown away, and with no timer and no work
  -- guard `run` returns without having called anything.
  pub restart_stays_dead :
      (env : Env H W) (fuel : ℕ) (hs : List H) (c : Context H W)
      → c.work_count ≡ 0
      → c.timers.timers ≡ []
      → 0 < fuel
      → let c' = post_all hs (restart (stop c)) in
        (c'.is_stopped ≡ false)
        × (c'.handlers.items ≡ [])
        × (run env fuel c' ≡ returned (record c' { is_current = false }) tt)
  unfolding restart stop WorkQueue.stop WorkQueue.clear run
  restart_stays_dead env fuel hs c free no_timers enough =
      rw (post_all_stopped hs (restart (stop c)) refl) (
        refl,
        refl,
        ground (
          arith,
          loop_idle env fuel (record (restart (stop c)) { is_current = true }) refl free no_timers,
        ),
      )

  -- An exception from a handler leaves `run_one` with the thread still marked as inside the context:
  -- `running_in_this_thread` says true afterwards, and `dispatch` from this thread, outside every
  -- handler, calls its handler at once instead of posting it.
  pub throw_leaves_current :
      (env : Env H W) (fuel : ℕ) (b : Build) (h : H) (c : Context H W) (x : Item H)
      (xs : List (Item H))
      → ((d : Context H W) → env.call x d ≡ threw d)
      → c.handlers.items ≡ x ∷ xs
      → c.timers.timers ≡ []
      → c.is_stopped ≡ false
      → 0 < fuel
      → (c' : Context H W) × (run_one env fuel c ≡ threw c')
        × (running_in_this_thread c' ≡ true)
        × (dispatch env b h c' ≡ env.call (posted h) c')
  unfolding run_one running_in_this_thread dispatch try_pop
  throw_leaves_current env fuel b h c x xs throws front no_timers live enough =
      let c1 : Context H W = record c { is_current = true; reads = suc c.reads } in
      let c' : Context H W = record c1 {
        handlers = record { items = xs; is_stopped = c.handlers.is_stopped };
      } in
      (
        c',
        ground (
          arith,
          timers_idle env fuel (record c { is_current = true }) no_timers enough,
          throws c',
        ),
        refl,
        ground arith,
      )
