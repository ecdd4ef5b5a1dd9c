-- ===== src/Strand/Invariant.antt =====
-- Who may run a strand: true of a new one, and kept by every step of any number of threads.
mod Defs
mod Moves
pub use Defs.*
use Moves.{Move-Inv}
use svarog_io.Common.{
  ℕ, zero, suc, ◌+◌, ◌≤◌, ◌<◌, ◌≡◌, ◌≢◌, refl, ◌⊎◌, Bool, true, false, List, [], ◌∷◌, ◌++◌, Option,
  none, some, arith, ◌==◌, if◌then◌else◌, append_assoc, append-nil, ◌∙◌, ap, sym, dec_lt,
  ℕ_discrete,
}
use svarog_io.Common.Family.{update, total, total-update, add-le-total, le-total, total-eq-zero}
use svarog_io.WorkQueue.{WorkQueue, value, unexpected, push_item, try_pop}
use svarog_io.Strand.{
  max_recursion_depth, Drain, off, entered, popping, handling, clearing, releasing, checking,
  retaking, restoring, Post, quiet, claiming, submitting, Thread, idle, can_call, System, set_drain,
  set_post, set_depth, pushed, Move, post_push, post_claim, post_leave, post_submit, post_rejected,
  dispatch_inline, dispatch_return, dispatch_post, enter, store_id, pop_handler, pop_nothing,
  handler_end, clear_id, release, leave_empty, see_items, retake, leave_to_other, restore_id, Step,
  pick, discard, Steps, here, later, start, Reach,
}

module _ {ℓ} {H : Type ℓ} where
  start-Inv : (n : ℕ) → Inv n (start {H = H})
  start-Inv n = record {
    beyond = λ i le. refl;
    open_queue = refl;
    one_owner = omega (arith, total-eq-zero owns n (λ _. idle) (λ i. refl));
    watched = λ full. absurd (full refl);
    named_running = λ i e. cc;
    running_named = λ i e. cc;
    depth_fits = λ i. refl;
    in_order = refl;
  }

  pub Step-Inv : {n : ℕ} {s t : System H} → Step n s t → Inv n s → Inv n t
  Step-Inv (pick i lt mv) v = Move-Inv v i lt mv
  Step-Inv (discard e) v = record {
    beyond = v.beyond;
    open_queue = v.open_queue;
    one_owner = omega (arith, v.one_owner);
    watched = v.watched;
    named_running = v.named_running;
    running_named = v.running_named;
    depth_fits = v.depth_fits;
    in_order = v.in_order;
  }

  pub Steps-Inv : {n : ℕ} {s t : System H} → Inv n s → Steps n s t → Inv n t
  Steps-Inv v here = v
  Steps-Inv v (later r st) = Step-Inv st (Steps-Inv v r)

  pub Reach-Inv : {n : ℕ} {s : System H} → Reach n s → Inv n s
  Reach-Inv {n} r = Steps-Inv (start-Inv n) r
