-- ===== src/Examples/Contexts.antt =====
-- Parts of examples/io_context/main.cpp that use one thread. A line that a handler prints is a number,
-- and what `main` prints itself is left out.
use svarog_io.Common.{ℕ, List, [], ◌∷◌, ◌++◌, ◌-◌}
use svarog_io.Contracts.{debug_build}
use svarog_io.Outcome.{Outcome, M, ◌>>◌, pure, modify}
use svarog_io.IoContext.{Context, Env, Item, posted, fired, new, post, dispatch, run, stop, restart}
use svarog_io.IoContext.Stepping.{run_each}

-- A handler that prints a line, or the handler of example 2.
pub data Handler : Type 0 where
  prints : ℕ → Handler
  dispatches : Handler

abbrev pub Lines : Type 0
Lines = Context Handler (List ℕ)

abbrev pub print : ℕ → Lines → Lines
print line c = record c { world = c.world ++ line ∷ [] }

abbrev pub handler_of : Item Handler → Handler
handler_of (posted h) = h
handler_of (fired h) = h

-- What is called inside the handler of example 2 only prints.
abbrev pub printing : Env Handler (List ℕ)
printing = record {
  clock = λ k. k;
  call = λ item. elim (handler_of item) [ prints k ↦ modify (print k) | dispatches ↦ pure tt ];
  reactor_run_one = λ t. pure 0;
}

-- "In handler", the line of `dispatch`, "After dispatch()", `post`, and "After post()"
abbrev pub dispatching : M Lines (Unit {0})
dispatching = do
  modify (print 1)
  dispatch printing debug_build (prints 2)
  modify (print 3)
  modify (post (prints 5))
  modify (print 4)

abbrev pub console : Env Handler (List ℕ)
console = record printing {
  call = λ item. elim (handler_of item) [ prints k ↦ modify (print k) | dispatches ↦ dispatching ];
}

abbrev pub post_tasks : Lines → Lines
post_tasks c = post (prints 3) (post (prints 2) (post (prints 1) c))

unfoldable pub example_post : ℕ → Outcome Lines (Unit {0})
unfolding run post
example_post fuel = run console fuel (post_tasks (new []))

unfoldable pub example_dispatch : ℕ → Outcome Lines (Unit {0})
unfolding run post
example_dispatch fuel = run console fuel (post dispatches (new []))

unfoldable pub example_run_one : ℕ → Outcome Lines ℕ
unfolding run_each post
example_run_one fuel = run_each console fuel (post_tasks (new []))

-- Example 5 from `stop` on, when the worker has left `run`.
unfoldable pub example_restart : ℕ → Lines → Outcome Lines (Unit {0})
unfolding run post stop restart
example_restart fuel c =
    let stopped : Lines = stop c in
    let unguarded : Lines = record stopped { work_count = stopped.work_count - 1 } in
    run console fuel (post (prints 9) (restart unguarded))
