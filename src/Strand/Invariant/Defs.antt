-- ===== src/Strand/Invariant/Defs.antt =====
-- The invariant of a strand: who has the executing flag, who is named, what is queued.
use svarog_io.Common.{ℕ, ◌+◌, ◌≤◌, ◌<◌, ◌≡◌, ◌≢◌, Bool, true, false, [], ◌++◌, some}
use svarog_io.Common.Family.{total}
use svarog_io.Strand.{
  max_recursion_depth, Drain, off, popping, handling, clearing, checking, retaking, Post, claiming,
  submitting, Thread, idle, System,
}

-- A thread that has the executing flag: it drains the queue, or is about to schedule that.
abbrev pub drain_owns : Drain → ℕ
drain_owns off = 0
drain_owns checking = 0
drain_owns retaking = 0
drain_owns _ = 1

abbrev pub post_owns : Post → ℕ
post_owns submitting = 1
post_owns _ = 0

abbrev pub owns : Thread → ℕ
owns t = drain_owns t.drain + post_owns t.post

-- A thread that will still try to take the flag.
abbrev pub drain_watches : Drain → ℕ
drain_watches checking = 1
drain_watches retaking = 1
drain_watches _ = 0

abbrev pub post_watches : Post → ℕ
post_watches claiming = 1
post_watches _ = 0

abbrev pub watches : Thread → ℕ
watches t = drain_watches t.drain + post_watches t.post

-- Where a thread's id stands in `m_running_thread_id`.
abbrev pub named : Drain → Bool
named popping = true
named handling = true
named clearing = true
named _ = false

abbrev pub flag : Bool → ℕ
flag true = 1
flag false = 0

-- The depth of a thread, by where it stands: nested handlers run inside a popped one only.
abbrev pub DepthFits : Drain → ℕ → Type 0
DepthFits handling d = d ≤ max_recursion_depth
DepthFits _ d = d ≡ 0

module _ {ℓ} {H : Type ℓ} where
  pub record Inv (n : ℕ) (s : System H) : Type ℓ where
    pub beyond : (i : ℕ) → n ≤ i → s.threads i ≡ idle
    pub open_queue : s.queue.is_stopped ≡ false
    -- The flag is set exactly while one owner, one waiting call or one lost call accounts for it.
    pub one_owner : total owns n s.threads + s.scheduled + s.lost ≡ flag s.executing
    -- Beside a queue with items someone owns the strand or will look at it again.
    pub watched : s.queue.items ≢ [] → 0 < flag s.executing + total watches n s.threads
    pub named_running : (i : ℕ) → named (s.threads i).drain ≡ true → s.running ≡ some i
    pub running_named : (i : ℕ) → s.running ≡ some i → named (s.threads i).drain ≡ true
    pub depth_fits : (i : ℕ) → DepthFits (s.threads i).drain (s.threads i).depth
    pub in_order : s.queued ≡ s.started ++ s.queue.items
