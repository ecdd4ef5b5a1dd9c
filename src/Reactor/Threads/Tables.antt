-- ===== src/Reactor/Threads/Tables.antt =====
-- The handlers in the table of the reactor, counted.
use svarog_io.Common.{
  ℕ, ◌+◌, ◌≤◌, ◌≡◌, refl, Bool, List, [], ◌∷◌, map, some, arith, ◌==◌, if◌then◌else◌, length,
}
use svarog_io.Common.Counting.{weigh, count}
use svarog_io.Common.Maps.{find, assign, erase_key}
use svarog_io.Reactor.Epoll.{FdData}
use svarog_io.Reactor.Threads.{handlers_at}

abbrev at_least_one : ℕ → ℕ
at_least_one k = if k == 0 then 1 else k

module _ {ℓ} {H : Type ℓ} where
  abbrev pub handlers_of : List (ℕ × FdData H) → List H
  handlers_of m = map (λ e. e.1.handler) m

  -- The table has one entry at most for each descriptor.
  abbrev pub Single : List (ℕ × FdData H) → Type 0
  Single m = (fd : ℕ) → length (handlers_at fd m) ≤ 1

  handlers_at-assign :
      (fd : ℕ) (d : FdData H) (m : List (ℕ × FdData H)) (j : ℕ)
      → length (handlers_at j (assign fd d m))
        ≡ (if fd == j then at_least_one (length (handlers_at j m)) else length (handlers_at j m))
  unfolding handlers_at assign
  handlers_at-assign fd d [] j = ground arith
  handlers_at-assign fd d ((i, x) ∷ m) j = ground (arith, handlers_at-assign fd d m j)

  pub assign-Single :
      (fd : ℕ) (d : FdData H) (m : List (ℕ × FdData H)) → Single m → Single (assign fd d m)
  assign-Single fd d m v = λ j. ground (arith, handlers_at-assign fd d m j, v j)

  handlers_at-erase_key :
      (fd : ℕ) (m : List (ℕ × FdData H)) (j : ℕ)
      → handlers_at j (erase_key fd m) ≡ (if fd == j then [] else handlers_at j m)
  unfolding handlers_at erase_key
  handlers_at-erase_key fd [] j = ground arith
  handlers_at-erase_key fd ((i, x) ∷ m) j = ground (arith, handlers_at-erase_key fd m j)

  pub erase_key-Single : (fd : ℕ) (m : List (ℕ × FdData H)) → Single m → Single (erase_key fd m)
  erase_key-Single fd m v = λ j. ground (arith, handlers_at-erase_key fd m j, v j)

  nil_of_length : (hs : List H) → length hs ≤ 0 → hs ≡ []
  nil_of_length [] h = refl
  nil_of_length (x ∷ hs) h = absurd (omega (arith, h))

  -- What is found is all that there is.
  pub handlers_at-found :
      (fd : ℕ) (d : FdData H) (m : List (ℕ × FdData H))
      → length (handlers_at fd m) ≤ 1
      → find fd m ≡ some d
      → handlers_at fd m ≡ d.handler ∷ []
  unfolding handlers_at find
  handlers_at-found fd d [] h e = absurd (ground (arith, e))
  handlers_at-found fd d ((i, x) ∷ m) h e =
      ground (arith, handlers_at-found fd d m, nil_of_length (handlers_at fd m), h, e)

module _ {ℓ} {H : Type ℓ} (p : H → Bool) where
  pub count-erase_key :
      (fd : ℕ) (m : List (ℕ × FdData H))
      → count p (handlers_of (erase_key fd m)) + count p (handlers_at fd m)
        ≡ count p (handlers_of m)
  unfolding handlers_at erase_key
  count-erase_key fd [] = refl
  count-erase_key fd ((i, x) ∷ m) = ground (arith, count-erase_key fd m)

  pub count-assign :
      (fd : ℕ) (d : FdData H) (m : List (ℕ × FdData H))
      → length (handlers_at fd m) ≤ 1
      → count p (handlers_of (assign fd d m)) + count p (handlers_at fd m)
        ≡ count p (handlers_of m) + weigh p d.handler
  unfolding handlers_at assign
  count-assign fd d [] h = omega arith
  count-assign fd d ((i, x) ∷ m) h =
      ground (arith, count-assign fd d m, nil_of_length (handlers_at fd m), h)
