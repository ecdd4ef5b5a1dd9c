-- ===== src/Reactor/Iocp.antt =====
-- `iocp_reactor` of io/detail/iocp_reactor.{hpp,cpp}: what the repository defines of it. The calls of
-- Windows, and the pool of operations, which is only declared, are parameters. An operation is known
-- by its address.
use mathlib.Core.Option
use svarog_io.Common.{
  ℕ, ◌≡◌, ◌≢◌, ◌⊎◌, inl, inr, refl, ◌%◌, ◌^◌, Bool, true, List, Option, none, some, ◌==◌,
  if◌then◌else◌, arith,
}
use svarog_io.Common.Maps.{find, assign, find-assign}
use svarog_io.Reactor.Operations.{IoOperation, no_operation}
use svarog_io.Reactor.Epoll.{Called, returned, threw}

-- `iocp_operation`, whose handler may have been moved out
pub record IocpOperation {ℓ} (H : Type ℓ) : Type ℓ where
  pub handler : Option H
  pub type_of : IoOperation
  pub socket : ℕ

pub record Iocp {ℓ} (H W : Type ℓ) : Type ℓ where
  pub is_stopped : Bool
  pub operations : List (ℕ × IocpOperation H)
  pub world : W

-- What `GetQueuedCompletionStatus` gives, with `GetLastError`; null is `none`.
pub record Completion : Type 0 where
  pub ok : Bool
  pub bytes : ℕ
  pub key : ℕ
  pub overlapped : Option ℕ
  pub last_error : ℕ

-- `iocp_op_codes`
abbrev pub completion_key_io : ℕ
completion_key_io = 1

abbrev pub completion_key_stop : ℕ
completion_key_stop = 2

-- An error is `none` where a call succeeds. `receive` takes the socket, the buffer, its size and the
-- operation.
pub record IocpOs {ℓ} (H W : Type ℓ) : Type ℓ where
  pub associate : ℕ → ℕ → W → W × Option ℕ
  pub acquire : W → W × ℕ
  pub release : ℕ → W → W
  pub receive : ℕ → ℕ → ℕ → ℕ → W → W × Option ℕ
  pub get_status : ℕ → W → W × Completion
  pub post : ℕ → W → W
  pub call : H → ℕ → ℕ → Iocp H W → Iocp H W
  pub wsa_io_pending : ℕ
  pub wait_timeout : ℕ

module _ {ℓ} {H W : Type ℓ} (os : IocpOs H W) where
  unfoldable pub associate_socket : ℕ → Iocp H W → Called (Iocp H W)
  associate_socket socket r =
      let (w, error) = os.associate socket completion_key_io r.world in
      elim error [
        | none ↦ returned (record r { world = w })
        | some e ↦ threw e (record r { world = w })
      ]

  unfoldable pub start_read : ℕ → ℕ → ℕ → H → Iocp H W → Called (Iocp H W)
  unfolding assign
  start_read socket buffer size h r =
      let (w, p) = os.acquire r.world in
      let op : IocpOperation H = record {
        handler = some h;
        type_of = record no_operation { read = true };
        socket = socket;
      } in
      let m = assign p op r.operations in
      let (w', error) = os.receive socket buffer (size % 2 ^ 32) p w in
      elim error [
        | none ↦ returned (record r { operations = m; world = w' })
        | some e ↦
            if e == os.wsa_io_pending
            then returned (record r { operations = m; world = w' })
            else threw e (record r { operations = m; world = os.release p w' })
      ]

  -- The time-out, or the exception, when the wait gives no operation.
  unfoldable pub wait_failed : Completion → Iocp H W → Called (Iocp H W × ℕ)
  wait_failed c r =
      if c.last_error == os.wait_timeout then returned (r, 0) else threw c.last_error (r, 0)

  -- The handler is moved out before the operation is released.
  unfoldable pub complete : ℕ → IocpOperation H → Completion → Iocp H W → Called (Iocp H W × ℕ)
  unfolding assign
  complete p op c r =
      let gone = record r {
        operations = assign p (record op { handler = none }) r.operations;
        world = os.release p r.world;
      } in
      let code = if c.ok then 0 else c.last_error in
      elim op.handler [
        | none ↦ returned (gone, 0)
        | some h ↦ returned (os.call h code c.bytes gone, 1)
      ]

  -- `none` stands for an operation that is null or unknown, which the code would use all the same.
  unfoldable pub do_run_one : ℕ → Iocp H W → Option (Called (Iocp H W × ℕ))
  unfolding find wait_failed complete
  do_run_one timeout r =
      let (w, c) = os.get_status (timeout % 2 ^ 32) r.world in
      let got = record r { world = w } in
      elim c.overlapped [
        | none ↦
            if c.ok
            then if c.key == completion_key_stop then some (returned (got, 0)) else none
            else some (wait_failed c got)
        | some p ↦
            if c.key == completion_key_stop
            then some (returned (got, 0))
            else elim (find p r.operations) [ none ↦ none | some op ↦ some (complete p op c got) ]
      ]

  unfoldable pub do_stop : Iocp H W → Iocp H W
  do_stop r = record r { is_stopped = true; world = os.post completion_key_stop r.world }

  -- A read completes once: when the system takes a read, or says that it is pending, `start_read`
  -- returns, and no operation but the acquired one changes; when the system then reports that one as
  -- complete, the next pass calls the handler of the read, with the error if the operation failed
  -- and with its number of bytes, and counts 1, and the operation is released and left without a
  -- handler before that call.
  pub read_completes :
      (socket buffer size timeout : ℕ) (h : H) (r : Iocp H W) (w : W) (c : Completion)
      → let p = (os.acquire r.world).1 in
        let asked = os.receive socket buffer (size % 2 ^ 32) p (os.acquire r.world).0 in
        ((asked.1 ≡ none) ⊎ (asked.1 ≡ some os.wsa_io_pending))
        → os.get_status (timeout % 2 ^ 32) asked.0 ≡ (w, c)
        → c.overlapped ≡ some p
        → c.key ≡ completion_key_io
        → (r' : Iocp H W) × (start_read socket buffer size h r ≡ returned r')
          × ((q : ℕ) → p ≢ q → find q r'.operations ≡ find q r.operations)
          × ((gone : Iocp H W) × (do_run_one timeout r'
                ≡ some (returned (os.call h (if c.ok then 0 else c.last_error) c.bytes gone, 1)))
              × (gone.world ≡ os.release p w)
              × (Option.map (λ op. op.handler) (find p gone.operations) ≡ some none))
  unfolding start_read do_run_one complete
  read_completes socket buffer size timeout h r w c taken status this io =
      let (w0, p) = os.acquire r.world in
      let op : IocpOperation H = record {
        handler = some h;
        type_of = record no_operation { read = true };
        socket = socket;
      } in
      let m = assign p op r.operations in
      let spent = record op { handler = none } in
      let asked = os.receive socket buffer (size % 2 ^ 32) p w0 in
      let there : find p m ≡ some op = ground (arith, find-assign p p op r.operations) in
      (
        record r { operations = m; world = asked.0 },
        elim taken [ inl h ↦ ground (arith, h) | inr h ↦ ground (arith, h) ],
        λ q d. ground (arith, d, find-assign p q op r.operations),
        (
          record r { operations = assign p spent m; world = os.release p w },
          ground (arith, status, this, io, there),
          refl,
          ground (arith, find-assign p p spent m),
        ),
      )
