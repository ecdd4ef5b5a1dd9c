-- ===== src/Reactor/Interests.antt =====
-- What the reactors ask the system to wait for.
use svarog_io.Common.{◌≡◌, ◌↔◌, refl, sym, ◌∙◌, ◌||◌, Bool, true, false, arith}
use svarog_io.Reactor.Operations.{IoOperation, no_operation, has_operation, to_epoll_events}
use svarog_io.Reactor.Kqueue.{reads, writes}
use svarog_io.Reactor.Select.{Entry, poll_fd}

module _ (ops : IoOperation) where
  has_read : has_operation ops (record no_operation { read = true }) ≡ ops.read
  unfolding has_operation
  has_read = ground arith

  has_write : has_operation ops (record no_operation { write = true }) ≡ ops.write
  unfolding has_operation
  has_write = ground arith

  has_accept : has_operation ops (record no_operation { accept = true }) ≡ ops.accept
  unfolding has_operation
  has_accept = ground arith

  has_connect : has_operation ops (record no_operation { connect = true }) ≡ ops.connect
  unfolding has_operation
  has_connect = ground arith

-- `a || b` is `a` exactly if `b` says nothing that `a` does not say.
covers_iff : (a b : Bool) → ((a || b) ≡ a) ↔ (b ≡ true → a ≡ true)
covers_iff true b = (λ h k. refl, λ h. refl)
covers_iff false true = (λ h k. sym h, λ h. sym (h refl))
covers_iff false false = (λ h k. k, λ h. refl)

reads_iff : (ops : IoOperation) → reads ops ≡ ops.read || ops.accept
unfolding reads
reads_iff ops = cc (has_read ops, has_accept ops)

writes_iff : (ops : IoOperation) → writes ops ≡ ops.write || ops.connect
unfolding writes
writes_iff ops = cc (has_write ops, has_connect ops)

-- The readiness that epoll is asked for.
pub events_iff :
    (ops : IoOperation)
    → ((to_epoll_events ops).input ≡ ops.read) × ((to_epoll_events ops).output ≡ ops.write)
unfolding to_epoll_events
events_iff ops = (has_read ops, has_write ops)

-- The reactors on epoll and on `poll` ask for the same readiness, and do not know `accept` and
-- `connect`: the one on kqueue asks for the same exactly when `accept` comes with `read` only, and
-- `connect` with `write` only.
pub interests_agree {ℓ} :
    {H : Type ℓ} (e : Entry H)
    → let ops = e.operations in
      ((poll_fd e).input ≡ (to_epoll_events ops).input)
      × ((poll_fd e).output ≡ (to_epoll_events ops).output)
      × (((reads ops ≡ (to_epoll_events ops).input) × (writes ops ≡ (to_epoll_events ops).output))
          ↔ ((ops.accept ≡ true → ops.read ≡ true) × (ops.connect ≡ true → ops.write ≡ true)))
unfolding poll_fd to_epoll_events
interests_agree e =
    let ops = e.operations in
    let (input, output) = events_iff ops in
    let (read_only, read_back) = covers_iff ops.read ops.accept in
    let (write_only, write_back) = covers_iff ops.write ops.connect in
    (
      refl,
      refl,
      (
        λ h. (
          read_only (sym (reads_iff ops) ∙ h.0 ∙ input),
          write_only (sym (writes_iff ops) ∙ h.1 ∙ output),
        ),
        λ h. (
          reads_iff ops ∙ read_back h.0 ∙ sym input,
          writes_iff ops ∙ write_back h.1 ∙ sym output,
        ),
      ),
    )
