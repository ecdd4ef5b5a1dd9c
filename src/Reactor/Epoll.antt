-- ===== src/Reactor/Epoll.antt =====
-- `epoll_reactor`, whose handlers may use it again. The calls of the system are parameters: `W` is
-- its state, with the epoll instance, and an error is the number in `errno`.
use svarog_io.Common.{ℕ, suc, Bool, true, List, [], ◌∷◌, Option, none, some, ◌==◌, if◌then◌else◌}
use svarog_io.Common.Maps.{find, assign, erase_key}
use svarog_io.Reactor.Operations.{
  IoOperation, Events, no_operation, has_operation, to_epoll_events, from_epoll_events,
}

pub record FdData {ℓ} (H : Type ℓ) : Type ℓ where
  pub handler : H
  pub operations : IoOperation

pub record Reactor {ℓ} (H W : Type ℓ) : Type ℓ where
  pub is_stopped : Bool
  pub edge_triggered : Bool
  pub handlers : List (ℕ × FdData H)
  pub world : W

pub record Epoll {ℓ} (H W : Type ℓ) : Type ℓ where
  pub add : ℕ → Events → W → W × Option ℕ
  pub delete : ℕ → W → W × Option ℕ
  pub modify : ℕ → Events → W → W × Option ℕ
  -- At most 128 events, or `none` with the error.
  pub wait : ℕ → W → W × Option (List (ℕ × Events)) × ℕ
  pub so_error : ℕ → W → W × ℕ
  -- What a handler does when it is called with an error code.
  pub call : H → ℕ → Reactor H W → Reactor H W
  pub enoent : ℕ
  pub eintr : ℕ

-- A call that returns, or throws the `std::system_error` of a number.
pub data Called {ℓ} (A : Type ℓ) : Type ℓ where
  returned : A → Called A
  threw : ℕ → A → Called A

module _ {ℓ} {H W : Type ℓ} (epoll : Epoll H W) where
  -- The events asked for, with the edge trigger if it is chosen.
  unfoldable pub wanted : Reactor H W → IoOperation → Events
  unfolding to_epoll_events
  wanted r ops =
      let e = to_epoll_events ops in if r.edge_triggered then record e { edge = true } else e

  unfoldable pub do_register : ℕ → IoOperation → H → Reactor H W → Called (Reactor H W)
  unfolding wanted assign erase_key
  do_register fd ops h r =
      let m = assign fd (record { handler = h; operations = ops }) r.handlers in
      let (w, error) = epoll.add fd (wanted r ops) r.world in
      elim error [
        | none ↦ returned (record r { handlers = m; world = w })
        | some e ↦ threw e (record r { handlers = erase_key fd m; world = w })
      ]

  unfoldable pub do_unregister : ℕ → Reactor H W → Called (Reactor H W)
  unfolding erase_key
  do_unregister fd r =
      let (w, error) = epoll.delete fd r.world in
      let gone = record r { handlers = erase_key fd r.handlers; world = w } in
      elim error [
        | none ↦ returned gone
        | some e ↦ if e == epoll.enoent then returned gone else threw e (record r { world = w })
      ]

  unfoldable pub do_modify : ℕ → IoOperation → Reactor H W → Called (Reactor H W)
  unfolding wanted find assign
  do_modify fd ops r =
      let (w, error) = epoll.modify fd (wanted r ops) r.world in
      elim error [
        | some e ↦ threw e (record r { world = w })
        | none ↦ elim (find fd r.handlers) [
          | none ↦ returned (record r { world = w })
          | some d ↦ returned (record r {
            handlers = assign fd (record d { operations = ops }) r.handlers;
            world = w;
          })
        ]
      ]

  -- The error code that a handler gets: `SO_ERROR`, which the call clears, if the event has it.
  unfoldable pub error_of : ℕ → Events → W → W × ℕ
  unfolding has_operation from_epoll_events
  error_of fd e w =
      if has_operation (from_epoll_events e) (record no_operation { error = true })
      then epoll.so_error fd w
      else (w, 0)

  -- The loop over the events, and how many handlers it called.
  unfoldable pub deliver : List (ℕ × Events) → Reactor H W → Reactor H W × ℕ
  unfolding find erase_key error_of
  deliver [] r = (r, 0)
  deliver ((fd, e) ∷ es) r = elim (find fd r.handlers) [
    | none ↦ deliver es r
    | some d ↦
        let (w, code) = error_of fd e r.world in
        let called =
          epoll.call d.handler code (record r { handlers = erase_key fd r.handlers; world = w }) in
        let (r', count) = deliver es called in (r', suc count)
  ]

  unfoldable pub do_run_one : ℕ → Reactor H W → Called (Reactor H W × ℕ)
  unfolding deliver
  do_run_one timeout r =
      if r.is_stopped
      then returned (r, 0)
      else (let (w, events, errno) = epoll.wait timeout r.world in
          elim events [
            | none ↦
                if errno == epoll.eintr
                then returned (record r { world = w }, 0)
                else threw errno (record r { world = w }, 0)
            | some es ↦ returned (deliver es (record r { world = w }))
          ])

  unfoldable pub do_poll_one : Reactor H W → Called (Reactor H W × ℕ)
  unfolding do_run_one
  do_poll_one r = do_run_one 0 r

unfoldable pub do_stop {ℓ} : {H W : Type ℓ} → Reactor H W → Reactor H W
do_stop r = record r { is_stopped = true }
