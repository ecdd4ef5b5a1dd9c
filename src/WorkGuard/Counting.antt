-- ===== src/WorkGuard/Counting.antt =====
-- The work count of a context is the number of guards that point at it.
use svarog_io.Common.{
  ℕ, zero, suc, ◌+◌, ◌≤◌, ◌<◌, ◌≡◌, refl, Option, none, some, arith, ◌==◌, if◌then◌else◌, List, [],
  ◌∷◌, length, Option-cases, Bool-cases, inl, inr,
}
use svarog_io.Common.Family.{update, total, total-update, total-update_above, le-total}
use svarog_io.WorkGuard.{
  Store, count_modulus, start, construct, reset, move_construct, move_assign, Op, constructs,
  resets, moves, assigns, step, run,
}

-- 1 for a guard that points at context `c`.
abbrev pub points_at : ℕ → Option ℕ → ℕ
points_at c none = 0
points_at c (some k) = if k == c then 1 else 0

abbrev pub owners : ℕ → Store → ℕ
owners c s = total (points_at c) s.made s.guards

-- A program names only guards that exist.
abbrev pub Names : Store → Op → Type 0
Names s (constructs c) = Unit {0}
Names s (resets i) = i < s.made
Names s (moves i) = i < s.made
Names s (assigns i j) = (i < s.made) × (j < s.made)

abbrev pub AllName : Store → List Op → Type 0
AllName s [] = Unit {0}
AllName s (o ∷ os) = Names s o × AllName (step s o) os

pub record Inv (s : Store) : Type 0 where
  pub counted : (c : ℕ) → s.work_count c ≡ owners c s

total-points-le : (c n : ℕ) (f : ℕ → Option ℕ) → total (points_at c) n f ≤ n
unfolding total
total-points-le c zero f = omega arith
total-points-le c (suc n) f = ground (arith, total-points-le c n f)

construct-Inv : (c : ℕ) (s : Store) → s.made + 1 < count_modulus → Inv s → Inv (construct c s)
unfolding construct total
construct-Inv c s room v = record {
  counted = λ k. ground (
    arith,
    v.counted k,
    v.counted c,
    total-points-le k s.made s.guards,
    total-update_above (points_at k) s.made s.guards s.made (some c),
  );
}

reset-Inv : (i : ℕ) (s : Store) → s.made < count_modulus → i < s.made → Inv s → Inv (reset i s)
unfolding reset
reset-Inv i s room lt v = record {
  counted = λ k. elim (Option-cases (s.guards i)) [
    | inl e ↦ ground (arith, v.counted k)
    | inr (c, e) ↦ ground (
      arith,
      v.counted k,
      total-points-le k s.made s.guards,
      le-total (points_at k) s.made s.guards i lt,
      total-update (points_at k) s.made s.guards i none lt,
    )
  ];
}

move_construct-Inv : (i : ℕ) (s : Store) → i < s.made → Inv s → Inv (move_construct i s)
unfolding move_construct total
move_construct-Inv i s lt v = record {
  counted = λ k. ground (
    arith,
    v.counted k,
    total-update (points_at k) s.made s.guards i none lt,
    total-update_above (points_at k) s.made (update s.guards i none) s.made (s.guards i),
  );
}

reset-made : (i : ℕ) (s : Store) → (reset i s).made ≡ s.made
unfolding reset
reset-made i s = ground arith

reset-cleared : (i : ℕ) (s : Store) → (reset i s).guards i ≡ none
unfolding reset
reset-cleared i s = ground arith

move_assign-Inv :
    (i j : ℕ) (s : Store)
    → s.made < count_modulus
    → i < s.made
    → j < s.made
    → Inv s
    → Inv (move_assign i j s)
unfolding move_assign
move_assign-Inv i j s room li lj v = elim (Bool-cases (i == j)) [
  | inl same ↦ rw same v
  | inr apart ↦ rw apart (record {
    counted = λ k. ground (
      arith,
      (reset-Inv i s room li v).counted k,
      reset-made i s,
      reset-cleared i s,
      total-update (points_at k) (reset i s).made (reset i s).guards j none,
      total-update (points_at k) (reset i s).made (update (reset i s).guards j none) i
          ((reset i s).guards j),
    );
  })
]

step-Inv : (s : Store) (o : Op) → s.made + 1 < count_modulus → Names s o → Inv s → Inv (step s o)
unfolding step
step-Inv s (constructs c) room names v = construct-Inv c s room v
step-Inv s (resets i) room names v = reset-Inv i s (omega arith) names v
step-Inv s (moves i) room names v = move_construct-Inv i s names v
step-Inv s (assigns i j) room names v = move_assign-Inv i j s (omega arith) names.0 names.1 v

step-made : (s : Store) (o : Op) → (step s o).made ≤ s.made + 1
unfolding step construct reset move_construct move_assign
step-made s (constructs c) = omega arith
step-made s (resets i) = ground arith
step-made s (moves i) = omega arith
step-made s (assigns i j) = ground arith

run-Inv :
    (s : Store) (os : List Op)
    → s.made + length os < count_modulus
    → AllName s os
    → Inv s
    → Inv (run s os)
unfolding run
run-Inv s [] room names v = v
run-Inv s (o ∷ os) room names v =
    run-Inv (step s o) os (omega (arith, step-made s o)) names.1
      (step-Inv s o (omega arith) names.0 v)

start-Inv : Inv start
unfolding total
start-Inv = record { counted = λ c. refl }

-- After any history of fewer than 2^64 guard operations (constructing, moving, assigning, also to
-- itself, resetting and destroying guards that exist), the work count of every context is exactly
-- the number of guards that point at it: it never wraps, is never decremented twice for one guard,
-- and is positive exactly while some guard holds the context.
pub work_count_exact :
    (os : List Op) (c : ℕ)
    → length os < count_modulus
    → AllName start os
    → (run start os).work_count c ≡ owners c (run start os)
work_count_exact os c room names = (run-Inv start os (omega arith) names start-Inv).counted c
