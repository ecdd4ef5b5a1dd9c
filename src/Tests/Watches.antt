-- ===== src/Tests/Watches.antt =====
-- The epoll reactor over a system that remembers the watched descriptors.
use svarog_io.Common.{
  ℕ, ◌≡◌, ◌≢◌, refl, true, false, List, [], ◌∷◌, none, some, ◌==◌, if◌then◌else◌, arith,
}
use svarog_io.Common.Maps.{find}
use svarog_io.Reactor.Operations.{IoOperation, Events, no_operation}
use svarog_io.Reactor.Epoll.{Reactor, Epoll, do_register, do_modify, do_run_one}
use svarog_io.Reactor.Watching.{Watched, registers, modifies, run}
use svarog_io.Reactor.Passes.{Action, act_all, commands, passes, IsProgram, handlers_watched}

unfoldable without : ℕ → List (ℕ × Events) → List (ℕ × Events)
without fd [] = []
without fd (x ∷ xs) = let rest = without fd xs in if x.0 == fd then rest else x ∷ rest

find-without : (fd g : ℕ) (xs : List (ℕ × Events)) → fd ≢ g → find g (without fd xs) ≡ find g xs
unfolding find without
find-without fd g [] d = refl
find-without fd g (x ∷ xs) d = ground (arith, d, find-without fd g xs d)

-- A descriptor may be added once. Every wait reports an error on descriptor 5; handlers do nothing.
abbrev error_event : Events
error_event = record { input = false; output = false; err = true; hup = false; edge = false }

abbrev strict_epoll : Epoll ℕ (List (ℕ × Events))
unfolding find without
strict_epoll = record {
  add = λ fd e w. elim (find fd w) [ none ↦ ((fd, e) ∷ w, none) | some old ↦ (w, some 17) ];
  delete = λ fd w. elim (find fd w) [ none ↦ (w, some 2) | some old ↦ (without fd w, none) ];
  modify =
      λ fd e w. elim (find fd w) [ none ↦ (w, some 2) | some old ↦ ((fd, e) ∷ without fd w, none) ];
  wait = λ t w. (w, some ((5, error_event) ∷ []), 0);
  so_error = λ fd w. (w, 104);
  call = λ h code r. r;
  enoent = 2;
  eintr = 4;
}

strict_epoll-Watched : Watched strict_epoll
unfolding find without
strict_epoll-Watched = record {
  watching = λ w fd. find fd w;
  add_watches = λ fd e w h. ground (arith, h);
  add_others = λ fd g e w d. ground (arith, d);
  delete_others = λ fd g w d. ground (arith, d, find-without fd g w d);
  delete_fails = λ fd error w failed known. ground (arith, failed, known);
  modify_watches = λ fd e w h. ground (arith, h);
  modify_fails = λ fd error e w h. ground (arith, h);
  modify_others = λ fd g e w d. ground (arith, d, find-without fd g w d);
  wait_keeps = λ t g w. refl;
  so_error_keeps = λ fd g w. refl;
}

abbrev reading : IoOperation
reading = record no_operation { read = true }

abbrev writing : IoOperation
writing = record no_operation { write = true }

abbrev empty_reactor : Reactor ℕ (List (ℕ × Events))
empty_reactor = record { is_stopped = false; edge_triggered = false; handlers = []; world = [] }

-- Two registrations, a pass that serves the first, a registration that is refused, and a change of
-- what the second asks for.
abbrev history : List (Action ℕ)
history =
    commands (registers 5 reading 1)
    ∷ commands (registers 6 reading 2)
    ∷ passes 0
    ∷ commands (registers 5 reading 3)
    ∷ commands (modifies 6 writing)
    ∷ []

handlers_watched_example :
    (e : Events) × (strict_epoll-Watched.watching
        (act_all strict_epoll history empty_reactor).world
        6
      ≡ some e)
    × (e.input ≡ false)
    × (e.output ≡ true)
    × (e.edge ≡ false)
unfolding act_all IsProgram run do_register do_modify do_run_one find strict_epoll
handlers_watched_example =
    handlers_watched strict_epoll strict_epoll-Watched (λ h code r. ([], refl)) history
      empty_reactor refl 6 (record { handler = 2; operations = writing }) refl
