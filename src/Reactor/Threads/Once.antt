-- ===== src/Reactor/Threads/Once.antt =====
-- No handler is called twice, whatever the threads overwrite in the buffer of each other.
use svarog_io.Common.{ℕ, suc, ◌+◌, ◌<◌, ◌≡◌, refl, ap, Bool, [], ◌∷◌, ◌++◌, arith, length}
use svarog_io.Common.Counting.{weigh, count, count-append}
use svarog_io.Common.Family.{total, total-update, total-eq-zero}
use svarog_io.Common.Maps.{erase_key}
use svarog_io.Reactor.Operations.{Events}
use svarog_io.Reactor.Epoll.{FdData}
use svarog_io.Reactor.Threads.{
  Pass, outside, polling, at_fd, at_flags, looking, holding, calling, Change, quiet, adding,
  deleting, modifying, Thread, Shared, handlers_at, passes, changes, Move, pass_stopped, pass_on,
  wait_failed, wait_reports, pass_ends, read_fd, read_flags, find_none, find_some, call_handler,
  handler_returns, handler_throws, register_entry, register_done, register_failed, unregister_done,
  unregister_erases, modify_done, modify_entry, modify_none, stops, start, Steps, here, later,
}
use svarog_io.Reactor.Threads.Tables.{
  handlers_of, Single, assign-Single, erase_key-Single, handlers_at-found, count-erase_key,
  count-assign,
}

module _ {ℓ} {H : Type ℓ} (p : H → Bool) where
  abbrev in_pass : Pass H → ℕ
  in_pass (holding k n fd e h) = weigh p h
  in_pass _ = 0

  -- What a thread has taken out of the table and not called yet.
  abbrev pub held : Thread H → ℕ
  held t = in_pass t.pass

  -- Handlers are registered, then in the table, taken out, called, or destroyed.
  record Kept (n : ℕ) (s : Shared H) : Type ℓ where
    single : Single s.handlers
    counted :
        count p s.registered
        ≡ count p (handlers_of s.handlers)
          + total held n s.threads
          + count p s.called
          + count p s.destroyed

  passes-total :
      (n : ℕ) (s : Shared H) (i : ℕ) (next : Pass H)
      → i < n
      → total held n (passes s i next).threads + held (s.threads i)
        ≡ total held n s.threads + in_pass next
  passes-total n s i next lt =
      total-update held n s.threads i (record (s.threads i) { pass = next }) lt

  changes-total :
      (n : ℕ) (s : Shared H) (i : ℕ) (c : Change)
      → i < n
      → total held n (changes s i c).threads ≡ total held n s.threads
  changes-total n s i c lt =
      omega (arith, total-update held n s.threads i (record (s.threads i) { change = c }) lt)

  passes-Kept :
      {n : ℕ} (s : Shared H) (i : ℕ) (next : Pass H)
      → i < n
      → held (s.threads i) ≡ in_pass next
      → Kept n s
      → Kept n (passes s i next)
  passes-Kept {n} s i next lt same v = record {
    single = v.single;
    counted = omega (arith, v.counted, same, passes-total n s i next lt);
  }

  changes-Kept :
      {n : ℕ} (s : Shared H) (i : ℕ) (c : Change) → i < n → Kept n s → Kept n (changes s i c)
  changes-Kept {n} s i c lt v = record {
    single = v.single;
    counted = omega (arith, v.counted, changes-total n s i c lt);
  }

  -- The entry of a descriptor is erased, and its handler destroyed.
  erases-Kept :
      {n : ℕ} (s : Shared H) (i fd : ℕ)
      → i < n
      → Kept n s
      → Kept n (record (changes s i quiet) {
        handlers = erase_key fd s.handlers;
        destroyed = s.destroyed ++ handlers_at fd s.handlers;
      })
  erases-Kept {n} s i fd lt v = record {
    single = erase_key-Single fd s.handlers v.single;
    counted = omega (
      arith,
      v.counted,
      changes-total n s i quiet lt,
      count-erase_key p fd s.handlers,
      count-append p s.destroyed (handlers_at fd s.handlers),
    );
  }

  Move-Kept :
      {n : ℕ} {s : Shared H} (i : ℕ) {t : Shared H} → i < n → Kept n s → Move s i t → Kept n t
  Move-Kept {s = s} i lt v (pass_stopped e q a) = passes-Kept s i outside lt (ap in_pass e) v
  Move-Kept {s = s} i lt v (pass_on e q a) = passes-Kept s i polling lt (ap in_pass e) v
  Move-Kept {s = s} i lt v (wait_failed e) = passes-Kept s i outside lt (ap in_pass e) v
  Move-Kept {n} {s} i lt v (wait_reports es e a) = record {
    single = v.single;
    counted = omega (arith, v.counted, ap in_pass e, passes-total n s i (at_fd 0 (length es)) lt);
  }
  Move-Kept {s = s} i lt v (pass_ends e a) = passes-Kept s i outside lt (ap in_pass e) v
  Move-Kept {s = s} i lt v (read_fd {k} {n = m} e a) =
      passes-Kept s i (at_flags k m (s.buffer k).0) lt (ap in_pass e) v
  Move-Kept {s = s} i lt v (read_flags {k} {n = m} {fd} e) =
      passes-Kept s i (looking k m fd (s.buffer k).1) lt (ap in_pass e) v
  Move-Kept {s = s} i lt v (find_none {k} {n = m} e a) =
      passes-Kept s i (at_fd (suc k) m) lt (ap in_pass e) v
  Move-Kept {n} {s} i lt v (find_some {k} {n = m} {fd} {e = flags} {d} e found) = record {
    single = erase_key-Single fd s.handlers v.single;
    counted = omega (
      arith,
      v.counted,
      ap in_pass e,
      count-erase_key p fd s.handlers,
      ap (count p) (handlers_at-found fd d s.handlers (v.single fd) found),
      passes-total n s i (holding k m fd flags (d.handler)) lt,
    );
  }
  Move-Kept {n} {s} i lt v (call_handler {k} {n = m} {h = h} e) = record {
    single = v.single;
    counted = omega (
      arith,
      v.counted,
      ap in_pass e,
      count-append p s.called (h ∷ []),
      passes-total n s i (calling k m) lt,
    );
  }
  Move-Kept {s = s} i lt v (handler_returns {k} {n = m} e q) =
      passes-Kept s i (at_fd (suc k) m) lt (ap in_pass e) v
  Move-Kept {s = s} i lt v (handler_throws e q) = passes-Kept s i outside lt (ap in_pass e) v
  Move-Kept {n} {s} i lt v (register_entry fd ops h free) =
      let d : FdData H = record { handler = h; operations = ops } in
      record {
        single = assign-Single fd d s.handlers v.single;
        counted = omega (
          arith,
          v.counted,
          changes-total n s i (adding fd) lt,
          count-assign p fd d s.handlers (v.single fd),
          count-append p s.registered (h ∷ []),
          count-append p s.destroyed (handlers_at fd s.handlers),
        );
      }
  Move-Kept {s = s} i lt v (register_done e) = changes-Kept s i quiet lt v
  Move-Kept {s = s} i lt v (register_failed {fd} e) = erases-Kept s i fd lt v
  Move-Kept {s = s} i lt v (unregister_done fd free) = changes-Kept s i (deleting fd) lt v
  Move-Kept {s = s} i lt v (unregister_erases {fd} e) = erases-Kept s i fd lt v
  Move-Kept {s = s} i lt v (modify_done fd ops free) = changes-Kept s i (modifying fd ops) lt v
  Move-Kept {n} {s} i lt v (modify_entry {fd} {ops} {d} e found) = record {
    single = assign-Single fd (record d { operations = ops }) s.handlers v.single;
    counted = omega (
      arith,
      v.counted,
      changes-total n s i quiet lt,
      ap (count p) (handlers_at-found fd d s.handlers (v.single fd) found),
      count-assign p fd (record d { operations = ops }) s.handlers (v.single fd),
    );
  }
  Move-Kept {s = s} i lt v (modify_none e a) = changes-Kept s i quiet lt v
  Move-Kept i lt v (stops free) = record { single = v.single; counted = v.counted }

  Steps-Kept : {n : ℕ} {s t : Shared H} → Kept n s → Steps n s t → Kept n t
  Steps-Kept v here = v
  Steps-Kept v (later i lt r mv) = Move-Kept i lt (Steps-Kept v r) mv

  start-Kept : (n : ℕ) (buffer : ℕ → ℕ × Events) → Kept n (start buffer)
  unfolding handlers_at
  start-Kept n buffer = record {
    single = λ fd. omega arith;
    counted =
        omega (
          arith,
          total-eq-zero held n (λ i. record { pass = outside; change = quiet }) (λ i. refl),
        );
  }

  -- No handler is called twice: whatever the system reports and however the threads interleave, also
  -- where they overwrite the event buffer of each other, as many of the registered handlers pass a
  -- test as there are among those in the table, those taken out of it by a thread that is about to
  -- call them, those called, and those destroyed without a call.
  pub handlers_called_once :
      {n : ℕ} {buffer : ℕ → ℕ × Events} {s : Shared H}
      → Steps n (start buffer) s
      → count p s.registered
        ≡ count p (handlers_of s.handlers)
          + total held n s.threads
          + count p s.called
          + count p s.destroyed
  handlers_called_once {n} {buffer} r = let v = Steps-Kept (start-Kept n buffer) r in v.counted
