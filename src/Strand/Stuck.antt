-- ===== src/Strand/Stuck.antt =====
-- What a strand does once its executor has thrown a call of `execute_next` away.
use svarog_io.Common.{ℕ, ◌<◌, ◌≡◌, refl, arith, ◌∙◌}
use svarog_io.Common.Family.{le-total}
use svarog_io.Strand.{
  System, Move, pop_handler, post_push, Step, pick, discard, Steps, here, later, Reach,
}
use svarog_io.Strand.Invariant.{Inv, owns, Reach-Inv, Steps-Inv}

module _ {ℓ} {H : Type ℓ} where
  Move-stuck :
      {n : ℕ} {s : System H} (i : ℕ) {t : System H}
      → i < n
      → Inv n s
      → 0 < s.lost
      → Move s i t
      → (t.started ≡ s.started) × (0 < t.lost)
  Move-stuck {n} {s} i lt v gone (post_push h c q) = (refl, gone)
  Move-stuck {n} {s} i lt v gone (pop_handler d e) =
      absurd (ground (arith, v.one_owner, le-total owns n s.threads i lt))
  Move-stuck {n} {s} i lt v gone mv = (refl, omega arith)

  Step-stuck :
      {n : ℕ} {s t : System H}
      → Inv n s
      → 0 < s.lost
      → Step n s t
      → (t.started ≡ s.started) × (0 < t.lost)
  Step-stuck v gone (pick i lt mv) = Move-stuck i lt v gone mv
  Step-stuck v gone (discard e) = (refl, omega arith)

  Steps-stuck :
      {n : ℕ} {s t : System H}
      → Inv n s
      → 0 < s.lost
      → Steps n s t
      → (t.started ≡ s.started) × (0 < t.lost)
  Steps-stuck v gone here = (refl, gone)
  Steps-stuck v gone (later r st) =
      let (same, still) = Steps-stuck v gone r in
      let (same', still') = Step-stuck (Steps-Inv v r) still st in (same' ∙ same, still')

  -- A strand whose call of `execute_next` was thrown away once is stuck for good: from then on no
  -- sequence of steps, by any number of threads and with any number of further posts, starts a
  -- handler.
  pub stuck_once_lost :
      {n : ℕ} {s t : System H} → Reach n s → 0 < s.lost → Steps n s t → t.started ≡ s.started
  stuck_once_lost r gone more = (Steps-stuck (Reach-Inv r) gone more).0
