-- ===== src/ThreadPool/Bounds.antt =====
-- What holds of a pool at each point of `stop`.
use svarog_io.Common.{ℕ, ◌≤◌, ◌≡◌, ◌≢◌, refl, true, arith}
use svarog_io.WorkQueue.{push_item, try_pop, stop, clear}
use svarog_io.ThreadPool.{
  running, closing, Pool, Move, see_token, take, handler_posts, clear_handlers, Step, work, post,
  reset_guard, store_stopped, stop_handlers, request, join, here, later, Reach,
}

module _ {ℓ} {H : Type ℓ} where
  -- What a worker leaves as it is.
  abbrev pub Same : Pool H → Pool H → Type 0
  Same s t =
      (t.phase ≡ s.phase)
      × (t.handlers.is_stopped ≡ s.handlers.is_stopped)
      × (t.work_count ≡ s.work_count)
      × (t.requested ≡ s.requested)
      × (t.joined ≡ s.joined)

  pub Move-Same : (s : Pool H) (i : ℕ) {t : Pool H} → Move s i t → Same s t
  unfolding push_item try_pop clear
  Move-Same s i (see_token e a) = (refl, refl, refl, refl, refl)
  Move-Same s i (take e a) = (refl, ground (arith, a), refl, refl, refl)
  Move-Same s i (handler_posts h e a) = (refl, ground (arith, a), refl, refl, refl)
  Move-Same s i (clear_handlers e) = (refl, refl, refl, refl, refl)
  Move-Same s i mv = (refl, refl, refl, refl, refl)

  pub record Bounded (n : ℕ) (s : Pool H) : Type 0 where
    pub dead : s.phase ≡ closing → s.handlers.is_stopped ≡ true
    pub free : s.phase ≢ running → s.work_count ≡ 0
    pub asked_all : s.requested ≤ n
    pub joined_all : s.joined ≤ n

  pub Step-Bounded : {n : ℕ} {s t : Pool H} → Bounded n s → Step n s t → Bounded n t
  unfolding push_item stop
  Step-Bounded {n} {s} {t} v (work i lt m) =
      let same = Move-Same s i m in
      record {
        dead = λ e. ground (arith, same, v.dead, e);
        free = λ e. ground (arith, same, v.free, e);
        asked_all = ground (arith, same, v.asked_all);
        joined_all = ground (arith, same, v.joined_all);
      }
  Step-Bounded v (post h ok) = record {
    dead = λ e. ground (arith, v.dead e, ok);
    free = v.free;
    asked_all = v.asked_all;
    joined_all = v.joined_all;
  }
  Step-Bounded v (reset_guard e) = record {
    dead = λ e'. ground (arith, e');
    free = λ e'. refl;
    asked_all = v.asked_all;
    joined_all = v.joined_all;
  }
  Step-Bounded v (store_stopped e) = record {
    dead = λ e'. ground (arith, e');
    free = λ e'. v.free (λ r. ground (arith, e, r));
    asked_all = v.asked_all;
    joined_all = v.joined_all;
  }
  Step-Bounded v (stop_handlers e) = record {
    dead = λ e'. refl;
    free = λ e'. v.free (λ r. ground (arith, e, r));
    asked_all = v.asked_all;
    joined_all = v.joined_all;
  }
  Step-Bounded v (request e lt) = record {
    dead = v.dead;
    free = v.free;
    asked_all = omega arith;
    joined_all = v.joined_all;
  }
  Step-Bounded v (join e a lt f) = record {
    dead = v.dead;
    free = v.free;
    asked_all = v.asked_all;
    joined_all = omega arith;
  }

  pub Reach-Bounded : {n : ℕ} {s : Pool H} → Reach n s → Bounded n s
  Reach-Bounded here = record {
    dead = λ e. ground (arith, e);
    free = λ e. absurd (e refl);
    asked_all = omega arith;
    joined_all = omega arith;
  }
  Reach-Bounded (later r st) = Step-Bounded (Reach-Bounded r) st
