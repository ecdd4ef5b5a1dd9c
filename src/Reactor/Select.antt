-- ===== src/Reactor/Select.antt =====
-- `select_reactor` of io/detail/select_reactor.hpp, on `poll`: what the repository defines of it.
-- The calls of the system are parameters.
pub mod Serving
use svarog_io.Common.{
  ℕ, suc, Bool, true, false, ◌||◌, List, [], ◌∷◌, Option, none, some, map, ◌==◌, if◌then◌else◌,
}
use svarog_io.Reactor.Operations.{IoOperation, no_operation, has_operation}
use svarog_io.Reactor.Epoll.{Called, returned, threw}

-- `fd_entry`
pub record Entry {ℓ} (H : Type ℓ) : Type ℓ where
  pub fd : ℕ
  pub operations : IoOperation
  pub handler : H

pub record Selector {ℓ} (H W : Type ℓ) : Type ℓ where
  pub is_stopped : Bool
  pub descriptors : List (Entry H)
  pub world : W

-- `pollfd`, where the descriptor `none` is -1, and `POLLIN` and `POLLOUT` of its events
pub record PollFd : Type 0 where
  pub fd : Option ℕ
  pub input : Bool
  pub output : Bool

-- `POLLIN`, `POLLOUT`, `POLLERR`, `POLLHUP` and `POLLNVAL` of `revents`
pub record Revents : Type 0 where
  pub input : Bool
  pub output : Bool
  pub err : Bool
  pub hup : Bool
  pub nval : Bool

-- `poll` gives its result and the `revents`, or `none` for -1 with the error; `read` takes a byte
-- from the pipe; a handler is told whether there was an input or output error.
pub record PollOs {ℓ} (H W : Type ℓ) : Type ℓ where
  pub poll : List PollFd → ℕ → W → W × Option (ℕ × List Revents) × ℕ
  pub read_byte : W → W
  pub call : H → Bool → Selector H W → Selector H W
  pub wake_pipe : Option ℕ
  pub eintr : ℕ

-- `revents == 0`
unfoldable pub is_quiet : Revents → Bool
is_quiet r = elim (r.input || r.output || r.err || r.hup || r.nval) [ true ↦ false | false ↦ true ]

unfoldable pub poll_fd {ℓ} : {H : Type ℓ} → Entry H → PollFd
unfolding has_operation
poll_fd e = record {
  fd = some e.fd;
  input = has_operation e.operations (record no_operation { read = true });
  output = has_operation e.operations (record no_operation { write = true });
}

-- `std::find_if` by the descriptor, and `erase` of what it finds
unfoldable pub find_fd {ℓ} : {H : Type ℓ} → ℕ → List (Entry H) → Option (Entry H)
find_fd fd [] = none
find_fd fd (e ∷ es) = let rest = find_fd fd es in if e.fd == fd then some e else rest

unfoldable pub erase_fd {ℓ} : {H : Type ℓ} → ℕ → List (Entry H) → List (Entry H)
erase_fd fd [] = []
erase_fd fd (e ∷ es) = let rest = erase_fd fd es in if e.fd == fd then es else e ∷ rest

module _ {ℓ} {H W : Type ℓ} (os : PollOs H W) where
  -- The loop over the snapshot and its `revents`, and how many handlers it called.
  unfoldable pub deliver : List (Entry H) → List Revents → Selector H W → Selector H W × ℕ
  unfolding is_quiet find_fd erase_fd
  deliver [] rs s = (s, 0)
  deliver (e ∷ es) [] s = (s, 0)
  deliver (e ∷ es) (r ∷ rs) s = elim (is_quiet r) [
    | true ↦ deliver es rs s
    | false ↦ elim (find_fd e.fd s.descriptors) [
      | none ↦ deliver es rs s
      | some d ↦
          let gone = record s { descriptors = erase_fd e.fd s.descriptors } in
          let (s', count) = deliver es rs (os.call d.handler (r.err || r.hup || r.nval) gone) in
          (s', suc count)
    ]
  ]

  -- The wake pipe, and what each entry asks for.
  unfoldable pub poll_fds : Selector H W → List PollFd
  unfolding poll_fd
  poll_fds s =
      record { fd = os.wake_pipe; input = true; output = false } ∷ map poll_fd s.descriptors

  unfoldable pub do_run_one : ℕ → Selector H W → Called (Selector H W × ℕ)
  unfolding poll_fds deliver
  do_run_one timeout s =
      let (w, answer, errno) = os.poll (poll_fds s) timeout s.world in
      let asked = record s { world = w } in
      elim answer [
        | none ↦ if errno == os.eintr then returned (asked, 0) else threw errno (asked, 0)
        | some (result, []) ↦ returned (asked, 0)
        | some (result, woken ∷ rs) ↦
            if result == 0
            then returned (asked, 0)
            else if woken.input
            then returned (record asked { world = os.read_byte w }, 0)
            else returned (deliver s.descriptors rs asked)
      ]
