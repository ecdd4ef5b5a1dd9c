-- ===== src/WorkQueue.antt =====
-- svarog/include/svarog/execution/work_queue.hpp, each member function as one atomic step (each
-- holds `m_mutex` throughout; the waiting inside `pop` is in WorkQueue/Blocking).
pub mod Order
pub mod Blocking
use svarog_io.Common.{
  ℕ, Bool, true, false, not, ◌||◌, List, [], ◌∷◌, ◌++◌, Option, none, some, if◌then◌else◌, length,
  is_empty,
}
use svarog_io.Contracts.{Build, Checked, expects}

-- `enum class queue_error`
pub data QueueError : Type 0 where
  empty stopped : QueueError

-- `expected<work_item, queue_error>`
pub data Expected {ℓ} (A : Type ℓ) : Type ℓ where
  value : A → Expected A
  unexpected : QueueError → Expected A

-- `m_queue`, oldest item first, and `m_stopped`.
pub record WorkQueue {ℓ} (A : Type ℓ) : Type ℓ where
  pub items : List A
  pub is_stopped : Bool

module _ {ℓ} {A : Type ℓ} where
  abbrev pub new : WorkQueue A
  new = record { items = []; is_stopped = false }

  -- `push` behind its precondition.
  unfoldable pub push_item : A → WorkQueue A → WorkQueue A × Bool
  push_item a q =
      if q.is_stopped then (q, false) else (record q { items = q.items ++ a ∷ [] }, true)

  -- `push`: an item may be an empty function, which the precondition excludes.
  unfoldable pub push : Build → (A → Bool) → A → WorkQueue A → Checked (WorkQueue A × Bool)
  unfolding push_item expects
  push b is_null a q = expects b (not (is_null a)) (push_item a q)

  -- The predicate on which `pop` waits, and the rest of `pop` once it holds.
  unfoldable pub pop_ready : WorkQueue A → Bool
  pop_ready q = not (is_empty q.items) || q.is_stopped

  -- `pop` after the wait. An empty queue that is not stopped is not ready: `pop` waits on, `none`.
  unfoldable pub pop : WorkQueue A → Option (WorkQueue A × Expected A)
  pop q =
      if q.is_stopped
      then some (q, unexpected stopped)
      else elim q.items [ [] ↦ none | a ∷ rest ↦ some (record q { items = rest }, value a) ]

  -- `pop(t_stop_predicate)`, at a value of the predicate: `none` while the wait goes on.
  unfoldable pub pop_or : Bool → WorkQueue A → Option (WorkQueue A × Expected A)
  pop_or quit q = if q.is_stopped then some (q, unexpected stopped) else elim q.items [
    | [] ↦ if quit then some (q, unexpected empty) else none
    | a ∷ rest ↦ some (record q { items = rest }, value a)
  ]

  unfoldable pub try_pop : WorkQueue A → WorkQueue A × Expected A
  try_pop q = elim q.items [
    | [] ↦ (q, unexpected (if q.is_stopped then stopped else empty))
    | a ∷ rest ↦ (record q { items = rest }, value a)
  ]

  unfoldable pub size : WorkQueue A → ℕ
  size q = length q.items

  unfoldable pub is_idle : WorkQueue A → Bool
  is_idle q = is_empty q.items

  unfoldable pub stop : WorkQueue A → WorkQueue A
  stop q = record q { is_stopped = true }

  unfoldable pub clear : WorkQueue A → WorkQueue A
  clear q = record q { items = [] }
