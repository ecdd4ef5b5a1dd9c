-- ===== src/Reactor/Threads/Overwritten.antt =====
-- A report of the system that another thread overwrites in the shared buffer.
use svarog_io.Common.{ℕ, ◌<◌, ◌≤◌, ◌≡◌, ◌≢◌, refl, [], ◌∷◌, some, arith}
use svarog_io.Common.Maps.{find, assign, erase_key}
use svarog_io.Reactor.Operations.{Events}
use svarog_io.Reactor.Epoll.{FdData}
use svarog_io.Reactor.Threads.{
  outside, at_fd, Shared, handlers_at, written, pass_on, wait_reports, pass_ends, read_fd,
  read_flags, find_none, find_some, call_handler, handler_returns, register_entry, register_done,
  start, Steps, here, later,
}

module _ {ℓ} {H : Type ℓ} where
  -- Steps from `s`, and where they end.
  record Run (n : ℕ) (s : Shared H) : Type ℓ where
    last : Shared H
    steps : Steps n s last

  module _ {n : ℕ} (two : 2 ≤ n) (buffer : ℕ → ℕ × Events) (a b : ℕ) (x y : FdData H) where
    one : 0 < n
    one = omega (arith, two)

    -- The first thread registers two descriptors, and the system reports the first one to it.
    abbrev polled : Events → Run n (start buffer)
    unfolding written handlers_at assign
    polled ea = record {
      last = _;
      steps =
          later 0 one
            (later 0 one
              (later 0 one
                (later 0 one
                  (later 0 one (later 0 one here (register_entry a (x.operations) (x.handler) refl))
                    (register_done refl))
                  (register_entry b (y.operations) (y.handler) refl))
                (register_done refl))
              (pass_on refl refl refl))
            (wait_reports ((a, ea) ∷ []) refl (omega arith));
    }

    -- It reports the second one to the other thread, before the first has read its event.
    abbrev polled_twice : (ea : Events) → Events → Run n (polled ea).last
    unfolding written handlers_at assign polled
    polled_twice ea eb = record {
      last = _;
      steps =
          later 1 two (later 1 two here (pass_on refl refl refl))
            (wait_reports ((b, eb) ∷ []) refl (omega arith));
    }

    -- Both threads go through the one event that each was told of.
    abbrev served : (ea eb : Events) → a ≢ b → Run n (polled_twice ea eb).last
    unfolding written handlers_at assign find erase_key polled polled_twice
    served ea eb d = record {
      last = _;
      steps =
          later 1 two
            (later 1 two
              (later 1 two
                (later 1 two
                  (later 0 one
                    (later 0 one
                      (later 0 one
                        (later 0 one
                          (later 0 one (later 0 one here (read_fd refl (omega arith)))
                            (read_flags refl))
                          (find_some {d = y} refl (ground (arith, d))))
                        (call_handler refl))
                      (handler_returns refl refl))
                    (pass_ends refl (omega arith)))
                  (read_fd refl (omega arith)))
                (read_flags refl))
              (find_none refl (ground (arith, d))))
            (pass_ends refl (omega arith));
    }

    -- A report can be lost, because another thread overwrites it in the shared buffer. For two threads
    -- or more, any two descriptors with their handlers, and any flags, there is a run through three
    -- states. In `r` both descriptors are registered, the system has reported an event of the first
    -- one only, and thread 0, which is about to read place 0 of the buffer, would find that event
    -- there. In `o` the system has reported an event of the second one to thread 1; thread 0 still has
    -- to read place 0, and there now is the event of the second one. In `s` both passes are over,
    -- nothing more was reported or registered, no handler was destroyed, that of the second one was
    -- called, and that of the first was not and is still in the table.
    pub report_overwritten :
        (ea eb : Events)
        → a ≢ b
        → (r : Shared H) × Steps n (start buffer) r
          × (r.registered ≡ x.handler ∷ y.handler ∷ [])
          × (find a r.handlers ≡ some x)
          × (find b r.handlers ≡ some y)
          × (r.reported ≡ a ∷ [])
          × ((r.threads 0).pass ≡ at_fd 0 1)
          × (r.buffer 0 ≡ (a, ea))
          × (o : Shared H) × Steps n r o
          × (o.reported ≡ a ∷ b ∷ [])
          × ((o.threads 0).pass ≡ at_fd 0 1)
          × ((o.threads 1).pass ≡ at_fd 0 1)
          × (o.buffer 0 ≡ (b, eb))
          × (s : Shared H) × Steps n o s
          × (s.reported ≡ a ∷ b ∷ [])
          × (s.registered ≡ x.handler ∷ y.handler ∷ [])
          × (s.called ≡ y.handler ∷ [])
          × (s.destroyed ≡ [])
          × ((s.threads 0).pass ≡ outside)
          × ((s.threads 1).pass ≡ outside)
          × (find a s.handlers ≡ some x)
    unfolding written handlers_at assign find erase_key polled polled_twice served
    report_overwritten ea eb d = (
      (polled ea).last,
      (polled ea).steps,
      refl,
      ground (arith, d),
      ground arith,
      refl,
      refl,
      refl,
      (polled_twice ea eb).last,
      (polled_twice ea eb).steps,
      refl,
      refl,
      refl,
      refl,
      (served ea eb d).last,
      (served ea eb d).steps,
      refl,
      refl,
      refl,
      ground (arith, d),
      refl,
      refl,
      ground (arith, d),
    )
