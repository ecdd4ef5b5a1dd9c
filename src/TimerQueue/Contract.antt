-- ===== src/TimerQueue/Contract.antt =====
-- What a client of a timer queue sees: a map from deadlines to timers. The order of the set, the
-- nodes and the id map are out of sight.
pub mod Entries
pub mod Refinement
use svarog_io.Common.{
  ℕ, ◌+◌, ◌%◌, ◌≤◌, ◌<◌, ◌≡◌, ◌≢◌, Bool, true, false, List, [], ◌∷◌, Option, none, some, ◌==◌,
  if◌then◌else◌,
}
use svarog_io.TimerQueue.{id_modulus}
use svarog_io.TimerQueue.Invariant.{Call, adds, cancels, pops, clears}

-- The pending timers, one at most for each deadline: its id and its handler.
pub record Spec {ℓ} (H : Type ℓ) : Type ℓ where
  pub next_id : ℕ
  pub entry : ℕ → Option (ℕ × H)

pub data Reply {ℓ} (H : Type ℓ) : Type ℓ where
  added : ℕ → Reply H
  canceled : Bool → Reply H
  popped : Option H → Reply H
  cleared : Reply H

module _ {ℓ} {H : Type ℓ} where
  abbrev pub or_else : Option (ℕ × H) → ℕ × H → Option (ℕ × H)
  or_else none x = some x
  or_else (some y) x = some y

  abbrev pub without : ℕ → (ℕ → Option (ℕ × H)) → ℕ → Option (ℕ × H)
  without d m k = if d == k then none else m k

  -- `d` is the latest deadline of a pending timer.
  abbrev pub IsLatest : Spec H → ℕ → Type ℓ
  IsLatest s d = (s.entry d ≢ none) × ((k : ℕ) → d < k → s.entry k ≡ none)

  -- What the queue promises for each call: which replies it may give, and the map afterwards.
  pub data Allows (s t : Spec H) : Call H → Reply H → Type ℓ where
    add_allowed :
        (d : ℕ) (h : H)
        → t.next_id ≡ (s.next_id + 1) % id_modulus
        → ((k : ℕ) → t.entry k ≡ (if d == k then or_else (s.entry k) (s.next_id, h) else s.entry k))
        → Allows s t (adds d h) (added s.next_id)
    cancel_allowed :
        (id d : ℕ) (h : H)
        → s.entry d ≡ some (id, h)
        → t.next_id ≡ s.next_id
        → ((k : ℕ) → t.entry k ≡ without d s.entry k)
        → Allows s t (cancels id) (canceled true)
    cancel_refused :
        (id : ℕ)
        → ((d : ℕ) (h : H) → s.entry d ≢ some (id, h))
        → t ≡ s
        → Allows s t (cancels id) (canceled false)
    pop_allowed :
        (now id d : ℕ) (h : H)
        → s.entry d ≡ some (id, h)
        → IsLatest s d
        → d ≤ now
        → t.next_id ≡ s.next_id
        → ((k : ℕ) → t.entry k ≡ without d s.entry k)
        → Allows s t (pops now) (popped (some h))
    pop_refused :
        (now : ℕ) → ((d : ℕ) → IsLatest s d → now < d) → t ≡ s → Allows s t (pops now) (popped none)
    clear_allowed : t.next_id ≡ s.next_id → ((k : ℕ) → t.entry k ≡ none) → Allows s t clears cleared

  -- A sequence of calls with their replies that the promise allows.
  pub data Behaves : Spec H → List (Call H × Reply H) → Spec H → Type ℓ where
    at_rest : {s : Spec H} → Behaves s [] s
    calling :
        {s t u : Spec H} {c : Call H} {r : Reply H} {rest : List (Call H × Reply H)}
        → Allows s t c r
        → Behaves t rest u
        → Behaves s ((c, r) ∷ rest) u
