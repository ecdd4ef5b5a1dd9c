-- ===== src/Network/Socket/Operations.antt =====
-- The operations of `basic_socket` on one object.
use svarog_io.Common.{
  ℕ, ◌+◌, ◌-◌, ◌/◌, ◌%◌, ◌^◌, Bool, true, false, not, Option, none, some, if◌then◌else◌, ◌==◌, leb,
}
use svarog_io.Contracts.{Checked, passed, terminated}
use svarog_io.Network.Protocol.{Family, SocketType, IpProtocol, Protocol}

pub data WaitType : Type 0 where
  wait_read : WaitType
  wait_write : WaitType
  wait_error : WaitType

pub data ShutdownType : Type 0 where
  shutdown_read : ShutdownType
  shutdown_write : ShutdownType
  shutdown_both : ShutdownType

-- `std::errc::already_connected`, or a number of `last_socket_error` in the system category.
pub data Error : Type 0 where
  already_connected : Error
  system : ℕ → Error

-- The text of a thrown `std::system_error` names the operation.
pub data Operation : Type 0 where
  opening : Operation
  closing : Operation
  assigning : Operation
  binding : Operation
  asking_local_endpoint : Operation
  shutting_down : Operation
  setting_option : Operation
  getting_option : Operation
  setting_non_blocking : Operation
  waiting : Operation

pub data Result {ℓ} (A : Type ℓ) : Type ℓ where
  done : A → Result A
  system_error : Error → Operation → Result A

-- An option object: its level and name, and the integer that the system reads or writes.
pub record SocketOption : Type 0 where
  pub level : ℕ
  pub name : ℕ
  pub is_boolean : Bool
  pub is_set : Bool
  pub int_value : ℕ

-- `resize` of `boolean_option` and `integer_option`
unfoldable pub resize_option : SocketOption → SocketOption
resize_option o = if o.is_boolean then record o { is_set = not (o.int_value == 0) } else o

-- The system calls, with the result 0 as `true` where they return an `int`.
pub record Os {ℓ} (E W : Type ℓ) : Type ℓ where
  pub last_error : W → ℕ
  pub socket : Family → SocketType → IpProtocol → W → W × Option ℕ
  pub close : Option ℕ → W → W × Bool
  pub bind : Option ℕ → E → ℕ → W → W × Bool
  pub getsockname : Option ℕ → E → ℕ → W → W × Bool × E × ℕ
  pub shutdown : Option ℕ → ShutdownType → W → W × Bool
  pub setsockopt : Option ℕ → ℕ → ℕ → ℕ → W → W × Bool
  pub getsockopt : Option ℕ → ℕ → ℕ → W → W × Bool × ℕ
  pub fcntl_getfl : Option ℕ → W → W × Option ℕ
  pub fcntl_setfl : Option ℕ → ℕ → W → W × Bool
  pub select : Option ℕ → WaitType → W → W × Bool
  -- `O_NONBLOCK` is `2 ^ nonblock_bit`.
  pub nonblock_bit : ℕ

-- What `basic_socket` uses of an endpoint.
pub record Endpoints {ℓ} (E : Type ℓ) : Type ℓ where
  pub empty : E
  pub protocol_of : E → Protocol
  pub size : E → ℕ
  pub capacity : ℕ

pub record Socket : Type 0 where
  pub context : ℕ
  pub protocol : Protocol
  pub socket : Option ℕ
  pub non_blocking : Bool

unfoldable pub is_open : Socket → Bool
is_open s = elim s.socket [ none ↦ false | some fd ↦ true ]

-- `release`
unfoldable pub release : Socket → Socket × Option ℕ
release s = (record s { socket = none }, s.socket)

unfoldable pub has_bit : ℕ → ℕ → Bool
has_bit k flags = (flags / 2 ^ k) % 2 == 1

-- `flags | 2 ^ k`, and `flags & ~2 ^ k`
unfoldable pub with_bit : Bool → ℕ → ℕ → ℕ
unfolding has_bit
with_bit true k flags = if has_bit k flags then flags else flags + 2 ^ k
with_bit false k flags = if has_bit k flags then flags - 2 ^ k else flags

module _ {ℓ} {E W : Type ℓ} (os : Os E W) where
  -- The error of a call that has just returned `ok`.
  unfoldable pub error_unless : Bool → W → Option Error
  error_unless ok w = if ok then none else some (system (os.last_error w))

  unfoldable pub open_socket : Protocol → Socket → W → W × Socket × Option Error
  unfolding is_open
  open_socket p s w =
      if is_open s
      then (w, s, some already_connected)
      else (let (w', handle) = os.socket p.family p.kind p.protocol w in
          elim handle [
            | none ↦ (w', record s { socket = none }, some (system (os.last_error w')))
            | some fd ↦ (w', record s { socket = some fd; protocol = p }, none)
          ])

  unfoldable pub close : Socket → W → W × Socket × Option Error
  unfolding is_open error_unless
  close s w =
      if is_open s
      then (let (w', ok) = os.close s.socket w in
          (w', record s { socket = none }, error_unless ok w'))
      else (w, s, none)

  unfoldable pub assign : Protocol → Option ℕ → Socket → W → W × Socket × Option Error
  unfolding is_open
  assign p handle s w =
      if is_open s
      then (w, s, some already_connected)
      else (w, record s { protocol = p; socket = handle }, none)

  unfoldable pub bind : Endpoints E → E → Socket → W → W × Socket × Option Error
  unfolding error_unless
  bind es e s w = let (w', ok) = os.bind s.socket e (es.size e) w in (w', s, error_unless ok w')

  -- `local_endpoint`: the object is const. `resize` throws when the length is above the capacity,
  -- which ends the process, the function being noexcept.
  unfoldable pub local_endpoint : Endpoints E → Socket → W → Checked (W × E × Option Error)
  local_endpoint es s w =
      let (w', ok, e, len) = os.getsockname s.socket es.empty es.capacity w in
      if ok
      then (if leb len es.capacity then passed (w', e, none) else terminated)
      else passed (w', e, some (system (os.last_error w')))

  unfoldable pub shutdown : ShutdownType → Socket → W → W × Socket × Option Error
  unfolding error_unless
  shutdown what s w = let (w', ok) = os.shutdown s.socket what w in (w', s, error_unless ok w')

  unfoldable pub set_option : SocketOption → Socket → W → W × Socket × Option Error
  unfolding error_unless
  set_option o s w =
      let (w', ok) = os.setsockopt s.socket o.level o.name o.int_value w in
      (w', s, error_unless ok w')

  unfoldable pub get_option : SocketOption → Socket → W → W × SocketOption × Option Error
  unfolding resize_option
  get_option o s w =
      let (w', ok, n) = os.getsockopt s.socket o.level o.name w in
      let written = record o { int_value = n } in
      if ok
      then (w', resize_option written, none)
      else (w', written, some (system (os.last_error w')))

  -- `detail::set_non_blocking`: whether it returns 0.
  unfoldable pub set_flags : Option ℕ → Bool → W → W × Bool
  unfolding with_bit
  set_flags handle mode w =
      let (w', flags) = os.fcntl_getfl handle w in
      elim flags [
        | none ↦ (w', false)
        | some n ↦ os.fcntl_setfl handle (with_bit mode os.nonblock_bit n) w'
      ]

  unfoldable pub set_non_blocking : Bool → Socket → W → W × Socket × Option Error
  unfolding set_flags
  set_non_blocking mode s w =
      let (w', ok) = set_flags s.socket mode w in
      if ok
      then (w', record s { non_blocking = mode }, none)
      else (w', s, some (system (os.last_error w')))

  unfoldable pub wait : WaitType → Socket → W → W × Socket × Option Error
  unfolding error_unless
  wait what s w = let (w', ok) = os.select s.socket what w in (w', s, error_unless ok w')
