-- ===== src/Network/Endpoint.antt =====
-- svarog/include/svarog/network/ip/endpoint.hpp. The union of `sockaddr_in` and `sockaddr_in6` is
-- one record: the family, the port, and the word that is `sin_addr` or `sin6_flowinfo`, stand at one
-- offset in both. The platform gives the byte orders and the sizes.
pub mod RoundTrip
use Prim.Native.Nat.{Ordering}
use svarog_io.Common.{
  ℕ, Bool, true, false, ◌&&◌, List, [], ◌∷◌, Option, none, some, ◌==◌, leb, if◌then◌else◌,
}
use svarog_io.Network.Protocol.{Family, inet, inet6, other, Protocol}
use svarog_io.Network.Address.V4.{AddressV4, from_native, to_native}
use svarog_io.Network.Address.V6.{AddressV6}
use svarog_io.Network.Address.Either.{Address, v4, v6, order, order_address}

pub record Endpoint : Type 0 where
  pub family : Family
  -- `sin_port`, `sin6_port`, in network order
  pub port : ℕ
  -- `sin_addr.s_addr`, `sin6_flowinfo`
  pub word : ℕ
  pub addr6 : List ℕ
  pub scope : ℕ

pub record Platform : Type 0 where
  pub htons : ℕ → ℕ
  pub ntohs : ℕ → ℕ
  pub htonl : ℕ → ℕ
  pub ntohl : ℕ → ℕ
  pub sizeof_in : ℕ
  pub sizeof_in6 : ℕ

abbrev zero_bytes : List ℕ
zero_bytes = 0 ∷ 0 ∷ 0 ∷ 0 ∷ 0 ∷ 0 ∷ 0 ∷ 0 ∷ 0 ∷ 0 ∷ 0 ∷ 0 ∷ 0 ∷ 0 ∷ 0 ∷ 0 ∷ []

-- `m_data.m_v4.sin_family == AF_INET6`
unfoldable pub is_inet6 : Endpoint → Bool
is_inet6 e = elim e.family [ inet ↦ false | inet6 ↦ true | other n ↦ false ]

-- `basic_endpoint()`; `INADDR_ANY` is 0.
abbrev pub empty : Endpoint
empty = record { family = inet; port = 0; word = 0; addr6 = zero_bytes; scope = 0 }

-- From a `sockaddr_in`, and from a `sockaddr_in6`.
unfoldable pub from_sockaddr_in : Family → ℕ → ℕ → Endpoint
from_sockaddr_in f port addr = record {
  family = f;
  port = port;
  word = addr;
  addr6 = zero_bytes;
  scope = 0;
}

unfoldable pub from_sockaddr_in6 : Family → ℕ → ℕ → List ℕ → ℕ → Endpoint
from_sockaddr_in6 f port flowinfo addr scope = record {
  family = f;
  port = port;
  word = flowinfo;
  addr6 = addr;
  scope = scope;
}

unfoldable pub protocol : (Family → Protocol) → Endpoint → Protocol
unfolding is_inet6
protocol make e = if is_inet6 e then make inet6 else make inet

unfoldable same_family : Family → Family → Bool
same_family inet inet = true
same_family inet6 inet6 = true
same_family (other m) (other n) = m == n
same_family _ _ = false

-- `memcmp` of two addresses
unfoldable pub same_bytes : List ℕ → List ℕ → Bool
same_bytes [] [] = true
same_bytes (x ∷ xs) (y ∷ ys) = (x == y) && same_bytes xs ys
same_bytes _ _ = false

-- `operator==`
unfoldable pub equal : Endpoint → Endpoint → Bool
unfolding is_inet6 same_family same_bytes
equal a b =
    if same_family a.family b.family
    then if is_inet6 a
      then (a.port == b.port)
        && ((a.word == b.word) && (same_bytes a.addr6 b.addr6 && (a.scope == b.scope)))
      else (a.port == b.port) && (a.word == b.word)
    else false

module _ (platform : Platform) where
  unfoldable pub from_v4 : AddressV4 → ℕ → Endpoint
  unfolding to_native
  from_v4 a port = record {
    family = inet;
    port = platform.htons port;
    word = to_native platform.htonl a;
    addr6 = zero_bytes;
    scope = 0;
  }

  unfoldable pub from_v6 : AddressV6 → ℕ → Endpoint
  from_v6 a port = record {
    family = inet6;
    port = platform.htons port;
    word = 0;
    addr6 = a.bytes;
    scope = a.scope_id;
  }

  unfoldable pub from_address : Address → ℕ → Endpoint
  unfolding from_v4 from_v6
  from_address (v4 a) port = from_v4 a port
  from_address (v6 a) port = from_v6 a port

  unfoldable pub get_address : Endpoint → Address
  unfolding is_inet6 from_native
  get_address e =
      if is_inet6 e
      then v6 (record { bytes = e.addr6; scope_id = e.scope })
      else v4 (from_native platform.ntohl e.word)

  unfoldable pub get_port : Endpoint → ℕ
  get_port e = platform.ntohs e.port

  unfoldable pub set_port : ℕ → Endpoint → Endpoint
  set_port port e = record e { port = platform.htons port }

  unfoldable pub size : Endpoint → ℕ
  unfolding is_inet6
  size e = if is_inet6 e then platform.sizeof_in6 else platform.sizeof_in

  -- `sizeof` of the union
  unfoldable pub capacity : ℕ
  capacity =
      if leb platform.sizeof_in platform.sizeof_in6 then platform.sizeof_in6 else platform.sizeof_in

  -- `resize`: `none` stands for a thrown `std::length_error`.
  unfoldable pub resize : ℕ → Endpoint → Option Endpoint
  unfolding capacity
  resize n e = if leb n capacity then some e else none

  -- `operator<=>`
  unfoldable pub order_endpoint : Endpoint → Endpoint → Ordering
  unfolding get_address get_port order_address order
  order_endpoint a b = elim (order_address (get_address a) (get_address b)) [
    | Ordering.lt ↦ Ordering.lt
    | Ordering.gt ↦ Ordering.gt
    | Ordering.eq ↦ order (get_port a) (get_port b)
  ]
