-- ===== src/Tests/Sharing.antt =====
-- Two threads that use one epoll reactor.
use svarog_io.Common.{ℕ, ◌+◌, ◌≡◌, refl, true, false, [], ◌∷◌, some, ◌==◌, arith}
use svarog_io.Common.Counting.{count}
use svarog_io.Common.Family.{total}
use svarog_io.Common.Maps.{find, assign, erase_key}
use svarog_io.Reactor.Operations.{no_operation, Events}
use svarog_io.Reactor.Epoll.{FdData}
use svarog_io.Reactor.Threads.{
  Shared, outside, at_fd, handlers_at, written, pass_on, wait_reports, read_fd, read_flags,
  find_some, register_entry, register_done, start, Steps, here, later,
}
use svarog_io.Reactor.Threads.Tables.{handlers_of}
use svarog_io.Reactor.Threads.Once.{held, handlers_called_once}
use svarog_io.Reactor.Threads.Overwritten.{report_overwritten}

abbrev readable : Events
readable = record { input = true; output = false; err = false; hup = false; edge = false }

abbrev unused : ℕ → ℕ × Events
unused k = (0, readable)

abbrev reads : ℕ → FdData ℕ
reads h = record { handler = h; operations = record no_operation { read = true } }

record Run : Type 0 where
  last : Shared ℕ
  steps : Steps 2 (start unused) last

-- Thread 1 registers 7 for descriptor 3, and 8 in its place; thread 0 takes 8 out.
abbrev taken_out : Run
unfolding written handlers_at assign find erase_key
taken_out = record {
  last = _;
  steps =
      later 0 (omega arith)
        (later 0 (omega arith)
          (later 0 (omega arith)
            (later 0 (omega arith)
              (later 0 (omega arith)
                (later 1 (omega arith)
                  (later 1 (omega arith)
                    (later 1 (omega arith)
                      (later 1 (omega arith) here
                        (register_entry 3 (record no_operation { read = true }) 7 refl))
                      (register_done refl))
                    (register_entry 3 (record no_operation { read = true }) 8 refl))
                  (register_done refl))
                (pass_on refl refl refl))
              (wait_reports ((3, readable) ∷ []) refl (omega arith)))
            (read_fd refl (omega arith)))
          (read_flags refl))
        (find_some {d = reads 8} refl refl);
}

handlers_called_once_example :
    1
    ≡ count (λ h. h == 8) (handlers_of taken_out.last.handlers)
      + total (held (λ h. h == 8)) 2 taken_out.last.threads
      + 0
      + 0
unfolding written handlers_at assign find erase_key
handlers_called_once_example = handlers_called_once (λ h. h == 8) taken_out.steps

report_overwritten_example :
    (r : Shared ℕ) × Steps 2 (start unused) r
    × (r.registered ≡ 7 ∷ 8 ∷ [])
    × (find 3 r.handlers ≡ some (reads 7))
    × (find 4 r.handlers ≡ some (reads 8))
    × (r.reported ≡ 3 ∷ [])
    × ((r.threads 0).pass ≡ at_fd 0 1)
    × (r.buffer 0 ≡ (3, readable))
    × (o : Shared ℕ) × Steps 2 r o
    × (o.reported ≡ 3 ∷ 4 ∷ [])
    × ((o.threads 0).pass ≡ at_fd 0 1)
    × ((o.threads 1).pass ≡ at_fd 0 1)
    × (o.buffer 0 ≡ (4, readable))
    × (s : Shared ℕ) × Steps 2 o s
    × (s.reported ≡ 3 ∷ 4 ∷ [])
    × (s.registered ≡ 7 ∷ 8 ∷ [])
    × (s.called ≡ 8 ∷ [])
    × (s.destroyed ≡ [])
    × ((s.threads 0).pass ≡ outside)
    × ((s.threads 1).pass ≡ outside)
    × (find 3 s.handlers ≡ some (reads 7))
report_overwritten_example =
    report_overwritten (omega arith) unused 3 4 (reads 7) (reads 8) readable readable
      (λ e. ground (arith, e))
