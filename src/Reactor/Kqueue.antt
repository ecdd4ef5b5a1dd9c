-- ===== src/Reactor/Kqueue.antt =====
-- `kqueue_reactor` of io/detail/kqueue_reactor.{hpp,cpp}: what the repository defines of it. The
-- calls of the system are parameters; an event's data is not negative.
use mathlib.Core.Path.{subst}
use svarog_io.Common.{
  sym, ℕ, suc, ◌*◌, ◌/◌, ◌%◌, ◌≡◌, refl, Bool, true, ◌||◌, List, [], ◌∷◌, ◌++◌, Option, none, some,
  ◌==◌, if◌then◌else◌, All, arith,
}
use svarog_io.Common.Maps.{find, assign, erase_key, find-assign, find-erase_key}
use svarog_io.Reactor.Operations.{IoOperation, no_operation, has_operation}
use svarog_io.Reactor.Epoll.{FdData, Called, returned, threw}

-- `EVFILT_READ` and `EVFILT_WRITE`
pub data Filter : Type 0 where
  read_filter : Filter
  write_filter : Filter

-- `flags & EV_ERROR`
pub record KEvent : Type 0 where
  pub ident : ℕ
  pub error : Bool
  pub data_of : ℕ

pub record Kqueue {ℓ} (H W : Type ℓ) : Type ℓ where
  pub is_stopped : Bool
  pub handlers : List (ℕ × FdData H)
  pub world : W

-- `kevent` with changes, and with room for 128 events and a time in seconds and nanoseconds; and
-- what a handler does with its error code and its number of bytes.
pub record KqueueOs {ℓ} (H W : Type ℓ) : Type ℓ where
  pub change : List (ℕ × Filter) → W → W × Option ℕ
  pub wait : ℕ → ℕ → W → W × Option (List KEvent) × ℕ
  pub call : H → ℕ → ℕ → Kqueue H W → Kqueue H W
  pub eintr : ℕ

unfoldable pub reads : IoOperation → Bool
unfolding has_operation
reads ops =
    has_operation ops (record no_operation { read = true })
    || has_operation ops (record no_operation { accept = true })

unfoldable pub writes : IoOperation → Bool
unfolding has_operation
writes ops =
    has_operation ops (record no_operation { write = true })
    || has_operation ops (record no_operation { connect = true })

-- `to_kqueue_filter`: `none` stands for 0.
unfoldable pub to_kqueue_filter : IoOperation → Option Filter
unfolding reads writes
to_kqueue_filter ops =
    if reads ops then some read_filter else if writes ops then some write_filter else none

-- The filters that `do_register` adds, each for one event.
unfoldable pub changes : ℕ → IoOperation → List (ℕ × Filter)
unfolding reads writes
changes fd ops =
    (if reads ops then (fd, read_filter) ∷ [] else [])
    ++ (if writes ops then (fd, write_filter) ∷ [] else [])

changes_both :
    (fd : ℕ) (ops : IoOperation)
    → reads ops ≡ true
    → writes ops ≡ true
    → changes fd ops ≡ (fd, read_filter) ∷ (fd, write_filter) ∷ []
unfolding changes
changes_both fd ops r w = simp (r, w)

module _ {ℓ} {H W : Type ℓ} (os : KqueueOs H W) where
  unfoldable pub do_register : ℕ → IoOperation → H → Kqueue H W → Called (Kqueue H W)
  unfolding changes assign erase_key
  do_register fd ops h k =
      let m = assign fd (record { handler = h; operations = ops }) k.handlers in
      let (w, error) = os.change (changes fd ops) k.world in
      elim error [
        | none ↦ returned (record k { handlers = m; world = w })
        | some e ↦ threw e (record k { handlers = erase_key fd m; world = w })
      ]

  -- The loop over the events, and how many handlers it called.
  unfoldable pub deliver : List KEvent → Kqueue H W → Kqueue H W × ℕ
  unfolding find erase_key
  deliver [] k = (k, 0)
  deliver (e ∷ es) k = elim (find e.ident k.handlers) [
    | none ↦ deliver es k
    | some d ↦
        let code = if e.error then e.data_of else 0 in
        let gone = record k { handlers = erase_key e.ident k.handlers } in
        let (k', count) = deliver es (os.call d.handler code e.data_of gone) in (k', suc count)
  ]

  -- The time-out is in milliseconds.
  unfoldable pub do_run_one : ℕ → Kqueue H W → Called (Kqueue H W × ℕ)
  unfolding deliver
  do_run_one timeout k =
      let (w, events, errno) = os.wait (timeout / 1000) (timeout % 1000 * 1000000) k.world in
      elim events [
        | none ↦
            if errno == os.eintr
            then returned (record k { world = w }, 0)
            else threw errno (record k { world = w }, 0)
        | some es ↦ returned (deliver es (record k { world = w }))
      ]

  -- Handlers that leave the table of handlers alone.
  unfoldable pub IsPassive : Type ℓ
  IsPassive =
      (h : H) (code bytes : ℕ) (k : Kqueue H W) → (os.call h code bytes k).handlers ≡ k.handlers

  deliver_absent :
      (es : List KEvent) (fd : ℕ) (k : Kqueue H W)
      → All (λ e. e.ident ≡ fd) es
      → find fd k.handlers ≡ none
      → deliver es k ≡ (k, 0)
  unfolding deliver
  deliver_absent [] fd k h absent = refl
  deliver_absent (e ∷ es) fd k (same, h) absent =
      ground (arith, same, absent, deliver_absent es fd k h absent)

  register_taken :
      (fd : ℕ) (ops : IoOperation) (h : H) (k : Kqueue H W)
      → (os.change (changes fd ops) k.world).1 ≡ none
      → (k' : Kqueue H W) × (do_register fd ops h k ≡ returned k')
        × (find fd k'.handlers ≡ some (record { handler = h; operations = ops }))
  unfolding do_register
  register_taken fd ops h k taken =
      let d : FdData H = record { handler = h; operations = ops } in
      (
        record k {
          handlers = assign fd d k.handlers;
          world = (os.change (changes fd ops) k.world).0;
        },
        ground (arith, taken),
        ground (arith, find-assign fd fd d k.handlers),
      )

  deliver_first :
      (e : KEvent) (es : List KEvent) (d : FdData H) (fd : ℕ) (k : Kqueue H W)
      → IsPassive
      → All (λ e. e.ident ≡ fd) (e ∷ es)
      → find fd k.handlers ≡ some d
      → ((deliver (e ∷ es) k).1 ≡ 1) × (find fd (deliver (e ∷ es) k).0.handlers ≡ none)
  unfolding deliver IsPassive
  deliver_first e es d fd k passive (same, all) there =
      let code = if e.error then e.data_of else 0 in
      let gone = record k { handlers = erase_key e.ident k.handlers } in
      let called = os.call d.handler code e.data_of gone in
      let absent : find fd called.handlers ≡ none =
        ground
          (arith, same, passive d.handler code e.data_of gone, find-erase_key fd fd k.handlers) in
      (
        ground (arith, same, there, deliver_absent es fd called all absent),
        ground (arith, same, there, absent, deliver_absent es fd called all absent),
      )

  -- A descriptor that is registered for both directions loses one of them: if the system takes the
  -- registration, it is asked for two filters, and the descriptor has the one handler; and if
  -- handlers leave the table alone, the first events for the descriptor call it once, and none
  -- later, from whichever filter, calls anything.
  pub second_direction_lost :
      (fd : ℕ) (ops : IoOperation) (h : H) (k : Kqueue H W) (e : KEvent) (es later : List KEvent)
      → reads ops ≡ true
      → writes ops ≡ true
      → (os.change ((fd, read_filter) ∷ (fd, write_filter) ∷ []) k.world).1 ≡ none
      → IsPassive
      → All (λ e. e.ident ≡ fd) (e ∷ es)
      → All (λ e. e.ident ≡ fd) later
      → (k' : Kqueue H W) × (do_register fd ops h k ≡ returned k')
        × (find fd k'.handlers ≡ some (record { handler = h; operations = ops }))
        × ((deliver (e ∷ es) k').1 ≡ 1)
        × (deliver later (deliver (e ∷ es) k').0 ≡ ((deliver (e ∷ es) k').0, 0))
  second_direction_lost fd ops h k e es later r w taken passive all all' =
      let (k', done, there) =
        register_taken fd ops h k
          (subst (λ cs. (os.change cs k.world).1 ≡ none) (sym (changes_both fd ops r w)) taken) in
      let (one, gone) =
        deliver_first e es (record { handler = h; operations = ops }) fd k' passive all there in
      (k', done, there, one, deliver_absent later fd (deliver (e ∷ es) k').0 all' gone)
