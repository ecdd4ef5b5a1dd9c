-- ===== src/WorkGuard.antt =====
-- svarog/source/svarog/execution/work_guard.cpp and include/svarog/execution/work_guard.hpp: the
-- guard objects of a program and the `m_work_count` of the contexts that they point at.
pub mod Counting
use svarog_io.Common.{
  ℕ, suc, ◌+◌, ◌-◌, ◌%◌, ◌^◌, Bool, true, false, Option, none, some, ◌==◌, if◌then◌else◌, List, [],
  ◌∷◌,
}
use svarog_io.Common.Family.{update}
use svarog_io.Contracts.{Checked, passed, terminated}

-- Objects and contexts are numbers. `guards i` is `m_context` of the i-th guard constructed, of
-- which there are `made`; a destroyed guard has none.
pub record Store : Type 0 where
  pub made : ℕ
  pub guards : ℕ → Option ℕ
  pub work_count : ℕ → ℕ

abbrev pub count_modulus : ℕ
count_modulus = 2 ^ 64

abbrev pub start : Store
start = record { made = 0; guards = λ _. none; work_count = λ _. 0 }

-- `executor_work_guard(io_context&)` and `make_work_guard`: `fetch_add(1)`.
unfoldable pub construct : ℕ → Store → Store
construct c s = record s {
  made = suc s.made;
  guards = update s.guards s.made (some c);
  work_count = update s.work_count c ((s.work_count c + 1) % count_modulus);
}

-- `reset`, and so the destructor: `fetch_sub(1)`. (Its `notify_all` wakes consumers of the handler
-- queue, and changes no field.)
unfoldable pub reset : ℕ → Store → Store
reset i s = elim (s.guards i) [
  | none ↦ s
  | some c ↦ record s {
    guards = update s.guards i none;
    work_count = update s.work_count c ((s.work_count c + count_modulus - 1) % count_modulus);
  }
]

-- The move constructor, `std::exchange` on the source.
unfoldable pub move_construct : ℕ → Store → Store
move_construct i s = record s {
  made = suc s.made;
  guards = update (update s.guards i none) s.made (s.guards i);
}

-- `*i = std::move(*j)`
unfoldable pub move_assign : ℕ → ℕ → Store → Store
unfolding reset
move_assign i j s =
    let s' = reset i s in
    if i == j then s else record s' { guards = update (update s'.guards j none) i (s'.guards j) }

unfoldable pub owns_work : ℕ → Store → Bool
owns_work i s = elim (s.guards i) [ none ↦ false | some c ↦ true ]

-- `get_executor`, which `Expects` a context.
unfoldable pub get_executor : ℕ → Store → Checked ℕ
get_executor i s = elim (s.guards i) [ none ↦ terminated | some c ↦ passed c ]

-- What a program does with its guards; it names only guards that it has constructed.
pub data Op : Type 0 where
  constructs : ℕ → Op
  resets moves : (i : ℕ) → Op
  assigns : (i j : ℕ) → Op

unfoldable pub step : Store → Op → Store
unfolding construct reset move_construct move_assign
step s (constructs c) = construct c s
step s (resets i) = reset i s
step s (moves i) = move_construct i s
step s (assigns i j) = move_assign i j s

unfoldable pub run : Store → List Op → Store
unfolding step
run s [] = s
run s (o ∷ os) = run (step s o) os
