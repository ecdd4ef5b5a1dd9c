-- ===== src/Strand/Invariant/Moves.antt =====
-- A move of one thread keeps each field of the invariant.
use svarog_io.Common.{
  ℕ, suc, ◌+◌, ◌≤◌, ◌<◌, ◌≡◌, ◌≢◌, true, false, [], ◌∷◌, ◌++◌, some, arith, append_assoc, dec_lt,
}
use svarog_io.Common.Family.{total, total-update, add-le-total, le-total}
use svarog_io.WorkQueue.{push_item, try_pop}
use svarog_io.Strand.{
  max_recursion_depth, off, entered, popping, handling, clearing, releasing, checking, retaking,
  restoring, quiet, claiming, submitting, Thread, idle, can_call, System, Move, post_push,
  post_claim, post_leave, post_submit, post_rejected, dispatch_inline, dispatch_return,
  dispatch_post, enter, store_id, pop_handler, pop_nothing, handler_end, clear_id, release,
  leave_empty, see_items, retake, leave_to_other, restore_id,
}
use svarog_io.Strand.Invariant.Defs.{owns, watches, named, flag, DepthFits, Inv}

module _ {ℓ} {H : Type ℓ} where
  -- What thread `i` becomes by a move, and the premises of the move that the proofs below use.
  module _ (s : System H) (i : ℕ) where
    abbrev th : Thread
    th = s.threads i

    abbrev became : {t : System H} → Move s i t → Thread
    became (post_push _ _ _) = record th { post = claiming }
    became (post_claim _ _) = record th { post = submitting }
    became (post_leave _ _) = record th { post = quiet }
    became (post_submit _) = record th { post = quiet }
    became (post_rejected _) = record th { post = quiet }
    became (dispatch_inline _ _ _ _) = record th { depth = suc th.depth }
    became (dispatch_return {k} _ _) = record th { depth = k }
    became (dispatch_post _ _ _ _) = record th { post = claiming }
    became (enter _ _) = record th { drain = entered }
    became (store_id _) = record th { drain = popping }
    became (pop_handler _ _) = record th { drain = handling }
    became (pop_nothing _ _) = record th { drain = clearing }
    became (handler_end _ _ _) = record th { drain = popping }
    became (clear_id _) = record th { drain = releasing }
    became (release _) = record th { drain = checking }
    became (leave_empty _ _) = record th { drain = off }
    became (see_items _ _) = record th { drain = retaking }
    became (retake _ _) = record th { drain = restoring }
    became (leave_to_other _ _) = record th { drain = off }
    became (restore_id _) = record th { drain = popping }

    abbrev Premises : {t : System H} → Move s i t → Type 0
    Premises (post_push _ _ _) = (can_call th.drain ≡ true) × (th.post ≡ quiet)
    Premises (post_claim _ _) = (th.post ≡ claiming) × (s.executing ≡ false)
    Premises (post_leave _ _) = (th.post ≡ claiming) × (s.executing ≡ true)
    Premises (post_submit _) = th.post ≡ submitting
    Premises (post_rejected _) = th.post ≡ submitting
    Premises (dispatch_inline _ _ _ _) =
        (can_call th.drain ≡ true) × (s.running ≡ some i) × (th.depth < max_recursion_depth)
    Premises (dispatch_return {k} _ _) = th.depth ≡ suc k
    Premises (dispatch_post _ _ _ _) = (can_call th.drain ≡ true) × (th.post ≡ quiet)
    Premises (enter {k} _ _) = (th ≡ idle) × (s.scheduled ≡ suc k)
    Premises (store_id _) = th.drain ≡ entered
    Premises (pop_handler _ _) = th.drain ≡ popping
    Premises (pop_nothing _ _) = th.drain ≡ popping
    Premises (handler_end _ _ _) = (th.drain ≡ handling) × (th.post ≡ quiet) × (th.depth ≡ 0)
    Premises (clear_id _) = th.drain ≡ clearing
    Premises (release _) = th.drain ≡ releasing
    Premises (leave_empty _ _) = th.drain ≡ checking
    Premises (see_items _ _) = th.drain ≡ checking
    Premises (retake _ _) = (th.drain ≡ retaking) × (s.executing ≡ false)
    Premises (leave_to_other _ _) = (th.drain ≡ retaking) × (s.executing ≡ true)
    Premises (restore_id _) = th.drain ≡ restoring

    premises : {t : System H} (mv : Move s i t) → Premises mv
    premises (post_push _ c q) = (c, q)
    premises (post_claim p e) = (p, e)
    premises (post_leave p e) = (p, e)
    premises (post_submit p) = p
    premises (post_rejected p) = p
    premises (dispatch_inline c _ r d) = (c, r, d)
    premises (dispatch_return _ d) = d
    premises (dispatch_post _ c q _) = (c, q)
    premises (enter x e) = (x, e)
    premises (store_id d) = d
    premises (pop_handler d _) = d
    premises (pop_nothing d _) = d
    premises (handler_end d p z) = (d, p, z)
    premises (clear_id d) = d
    premises (release d) = d
    premises (leave_empty d _) = d
    premises (see_items d _) = d
    premises (retake d e) = (d, e)
    premises (leave_to_other d e) = (d, e)
    premises (restore_id d) = d

  module _ {n : ℕ} {s : System H} (v : Inv n s) (i : ℕ) (lt : i < n) where
    Move-beyond : {t : System H} → Move s i t → (j : ℕ) → n ≤ j → t.threads j ≡ idle
    Move-beyond (post_push h c q) j le = ground (arith, v.beyond j)
    Move-beyond mv j le = ground (arith, v.beyond j)

    Move-open : {t : System H} → Move s i t → t.queue.is_stopped ≡ false
    unfolding push_item try_pop
    Move-open (post_push h c q) = ground (arith, v.open_queue)
    Move-open (dispatch_post h c q w) = ground (arith, v.open_queue)
    Move-open (pop_handler d e) = ground (arith, v.open_queue)
    Move-open (pop_nothing d e) = ground (arith, v.open_queue)
    Move-open mv = v.open_queue

    Move-owner :
        {t : System H}
        → Move s i t
        → total owns n t.threads + t.scheduled + t.lost ≡ flag t.executing
    Move-owner (post_push h c q) =
        ground
          (arith, v.one_owner, total-update owns n s.threads i (became s i (post_push h c q)) lt)
    Move-owner mv = ground (
      arith,
      premises s i mv,
      v.one_owner,
      le-total owns n s.threads i lt,
      total-update owns n s.threads i (became s i mv) lt,
    )

    Move-named :
        {t : System H}
        → Move s i t
        → (j : ℕ) → named (t.threads j).drain ≡ true
        → t.running ≡ some j
    Move-named (post_push h c q) j e = ground (arith, v.named_running j)
    Move-named mv j e = ground (
      arith,
      premises s i mv,
      v.one_owner,
      v.named_running j,
      v.named_running i,
      v.beyond j,
      dec_lt j n,
      add-le-total owns n s.threads i j lt,
    )

    Move-running :
        {t : System H}
        → Move s i t
        → (j : ℕ) → t.running ≡ some j
        → named (t.threads j).drain ≡ true
    Move-running (post_push h c q) j e = ground (arith, v.running_named j)
    Move-running mv j e =
        ground (arith, premises s i mv, v.running_named j, v.running_named i, v.named_running i)

    Move-depth :
        {t : System H} → Move s i t → (j : ℕ) → DepthFits (t.threads j).drain (t.threads j).depth
    Move-depth (post_push h c q) j = ground (arith, v.depth_fits j)
    Move-depth mv j =
        ground (arith, premises s i mv, v.depth_fits j, v.depth_fits i, v.running_named i)

    Move-order : {t : System H} → Move s i t → t.queued ≡ t.started ++ t.queue.items
    unfolding push_item try_pop
    Move-order (post_push h c q) =
        ground (arith, v.open_queue, v.in_order, append_assoc s.started s.queue.items (h ∷ []))
    Move-order (dispatch_post h c q w) =
        ground (arith, v.open_queue, v.in_order, append_assoc s.started s.queue.items (h ∷ []))
    Move-order (pop_handler {q} {h} d e) =
        ground (arith, v.in_order, append_assoc s.started (h ∷ []) q.items)
    Move-order (pop_nothing d e) = ground (arith, v.in_order)
    Move-order mv = v.in_order

    Move-watched :
        {t : System H}
        → Move s i t
        → t.queue.items ≢ []
        → 0 < flag t.executing + total watches n t.threads
    unfolding push_item try_pop
    Move-watched (post_push h c q) full =
        ground (arith, total-update watches n s.threads i (became s i (post_push h c q)) lt)
    Move-watched (dispatch_post h c q w) full =
        ground (arith, total-update watches n s.threads i (became s i (dispatch_post h c q w)) lt)
    Move-watched (pop_handler d e) full =
        ground (arith, v.one_owner, le-total owns n s.threads i lt)
    Move-watched (pop_nothing d e) full =
        ground (arith, v.one_owner, le-total owns n s.threads i lt)
    Move-watched (leave_empty d e) full = absurd (full e)
    Move-watched mv full = ground (
      arith,
      premises s i mv,
      v.watched full,
      v.one_owner,
      le-total owns n s.threads i lt,
      total-update watches n s.threads i (became s i mv) lt,
    )

    pub Move-Inv : {t : System H} → Move s i t → Inv n t
    Move-Inv mv = record {
      beyond = Move-beyond mv;
      open_queue = Move-open mv;
      one_owner = Move-owner mv;
      watched = Move-watched mv;
      named_running = Move-named mv;
      running_named = Move-running mv;
      depth_fits = Move-depth mv;
      in_order = Move-order mv;
    }
