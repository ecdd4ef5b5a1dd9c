-- ===== src/TimerQueue.antt =====
-- svarog/include/svarog/io/detail/timer_queue.hpp and svarog/source/svarog/io/detail/timer_queue.cpp.
-- A time point is the number of clock ticks since the earliest one that the clock can represent; the
-- readings of `clock_type::now()` are arguments. Each member function but `process_expired` holds
-- `m_mutex` throughout, and is one step.
pub mod Invariant
pub mod Ordering
pub mod Lifecycle
pub mod Expiry
pub mod Contract
use svarog_io.Common.{
  ℕ, zero, suc, ◌+◌, ◌-◌, ◌%◌, ◌^◌, Bool, true, false, List, [], ◌∷◌, map, Option, none, some, ltb,
  leb, ◌==◌, if◌then◌else◌, length, is_empty,
}
use svarog_io.Common.Maps.{find, assign, erase_key}

abbrev pub invalid_timer_id : ℕ
invalid_timer_id = 0

-- `struct timer_entry`
pub record TimerEntry {ℓ} (H : Type ℓ) : Type ℓ where
  pub id : ℕ
  pub deadline : ℕ
  pub handler : H

-- `m_timers` is the `std::set` in its iteration order; an iterator into it, as `m_id_to_iterator`
-- holds them, is the deadline of its node, of which the set has one at most.
pub record TimerQueue {ℓ} (H : Type ℓ) : Type ℓ where
  pub next_id : ℕ
  pub timers : List (TimerEntry H)
  pub id_to_iterator : List (ℕ × ℕ)

abbrev pub id_modulus : ℕ
id_modulus = 2 ^ 64

-- A time point plus a duration, both of 64 bits: the sum wraps around, so that a negative duration is
-- a number from 2 ^ 63 on. In C++ a sum out of range is undefined behaviour.
abbrev pub later_by : ℕ → ℕ → ℕ
later_by duration t = (t + duration) % 2 ^ 64

module _ {ℓ} {H : Type ℓ} where
  abbrev pub new : TimerQueue H
  new = record { next_id = 1; timers = []; id_to_iterator = [] }

  -- `timer_entry::operator>`, by which `std::greater<>` orders the set.
  abbrev pub greater : TimerEntry H → TimerEntry H → Bool
  greater a b = ltb b.deadline a.deadline

  -- `std::set::emplace`: the set after it, and whether the entry went in. An entry that is
  -- equivalent to one of the set (neither is greater) is destroyed.
  unfoldable pub emplace : TimerEntry H → List (TimerEntry H) → List (TimerEntry H) × Bool
  emplace e [] = (e ∷ [], true)
  emplace e (x ∷ xs) =
      let rest = emplace e xs in
      if greater e x
      then (e ∷ x ∷ xs, true)
      else if greater x e
      then (x ∷ rest.0, rest.1)
      else (x ∷ xs, false)

  -- `std::set::erase` of the node that an iterator points at.
  unfoldable pub erase_node : ℕ → List (TimerEntry H) → List (TimerEntry H)
  erase_node d [] = []
  erase_node d (x ∷ xs) = if x.deadline == d then xs else x ∷ erase_node d xs

  -- `add_timer(time_point, timer_handler)`, with `generate_id` (a `fetch_add` on 64 bits).
  unfoldable pub add_timer : ℕ → H → TimerQueue H → TimerQueue H × ℕ
  unfolding emplace assign
  add_timer deadline handler q =
      let id = q.next_id in
      let (timers, inserted) =
        emplace (record { id = id; deadline = deadline; handler = handler }) q.timers in
      (
        record q {
          next_id = (q.next_id + 1) % id_modulus;
          timers = timers;
          id_to_iterator =
              if inserted then assign id deadline q.id_to_iterator else q.id_to_iterator;
        },
        id,
      )

  -- `add_timer(duration, timer_handler)`, with the clock reading `now`
  unfoldable pub add_timer_after : ℕ → ℕ → H → TimerQueue H → TimerQueue H × ℕ
  unfolding add_timer
  add_timer_after now duration handler q = add_timer (later_by duration now) handler q

  unfoldable pub cancel_timer : ℕ → TimerQueue H → TimerQueue H × Bool
  unfolding find erase_node erase_key
  cancel_timer id q = elim (find id q.id_to_iterator) [
    | none ↦ (q, false)
    | some node ↦ (
      record q {
        timers = erase_node node q.timers;
        id_to_iterator = erase_key id q.id_to_iterator;
      },
      true,
    )
  ]

  unfoldable pub get_next_expiry : TimerQueue H → Option ℕ
  get_next_expiry q = elim q.timers [ [] ↦ none | x ∷ xs ↦ some x.deadline ]

  unfoldable pub time_until_next : ℕ → TimerQueue H → Option ℕ
  unfolding get_next_expiry
  time_until_next now q = elim (get_next_expiry q) [
    | none ↦ none
    | some expiry ↦ some (if leb expiry now then 0 else expiry - now)
  ]

  unfoldable pub pop_expired : ℕ → TimerQueue H → TimerQueue H × Option H
  unfolding erase_key
  pop_expired now q = elim q.timers [
    | [] ↦ (q, none)
    | x ∷ xs ↦ if ltb now x.deadline then (q, none) else (
      record q { timers = xs; id_to_iterator = erase_key x.id q.id_to_iterator },
      some x.handler,
    )
  ]

  unfoldable pub has_expired : ℕ → TimerQueue H → Bool
  has_expired now q = elim q.timers [ [] ↦ false | x ∷ xs ↦ leb x.deadline now ]

  unfoldable pub is_idle : TimerQueue H → Bool
  is_idle q = is_empty q.timers

  unfoldable pub size : TimerQueue H → ℕ
  size q = length q.timers

  -- `clear`, and the handlers that it calls with `operation_canceled`, in order.
  unfoldable pub clear : TimerQueue H → TimerQueue H × List H
  clear q = (record q { timers = []; id_to_iterator = [] }, map (λ e. e.handler) q.timers)

  -- `process_expired`: `clock k` is the k-th reading of the clock from here on, and `fire` what a
  -- handler does to the queue when it is called. The result is the queue and the number of handlers
  -- called; `none` means that the fuel ran out.
  unfoldable pub process_expired :
      ℕ → (ℕ → ℕ) → (H → TimerQueue H → TimerQueue H) → ℕ → TimerQueue H → Option (TimerQueue H × ℕ)
  unfolding pop_expired
  process_expired zero clock fire until q = none
  process_expired (suc fuel) clock fire until q =
      let (q', popped) = pop_expired (clock 0) q in
      elim popped [
        | none ↦ some (q', 0)
        | some handler ↦
            let rest = process_expired fuel (λ k. clock (k + 2)) fire until (fire handler q') in
            if ltb until (clock 1)
            then some (q', 0)
            else elim rest [ none ↦ none | some (q'', count) ↦ some (q'', suc count) ]
      ]
