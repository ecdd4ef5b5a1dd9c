-- ===== src/Network/Endpoint/RoundTrip.antt =====
-- Endpoints, and what they were made from.
use Prim.Native.Nat.{Ordering}
use svarog_io.Common.{ℕ, ◌≡◌, ◌≢◌, refl, false, some, arith, if◌then◌else◌, ap}
use svarog_io.Network.Protocol.{Family, inet, inet6, Protocol}
use svarog_io.Network.Address.V4.{from_native, to_native}
use svarog_io.Network.Address.Either.{Address, v4, v6, is_v6, order}
use svarog_io.Network.Address.Order.{order_address_total}
use svarog_io.Network.Endpoint.{
  Endpoint, Platform, is_inet6, from_v4, from_v6, from_address, get_address, get_port, set_port,
  protocol, size, capacity, resize, equal, order_endpoint,
}

-- An endpoint made from an address and a port gives them back, gives a port that is set later with
-- the address as it was, has the protocol of the address's kind, and fits its capacity: given that
-- `ntohs` and `ntohl` undo `htons` and `htonl`.
pub from_address-get :
    (platform : Platform) (make : Family → Protocol) (a : Address) (port later : ℕ)
    → ((n : ℕ) → platform.ntohs (platform.htons n) ≡ n)
    → ((n : ℕ) → platform.ntohl (platform.htonl n) ≡ n)
    → let e = from_address platform a port in
      (get_address platform e ≡ a)
      × (get_port platform e ≡ port)
      × (get_address platform (set_port platform later e) ≡ a)
      × (get_port platform (set_port platform later e) ≡ later)
      × (protocol make e ≡ make (if is_v6 a then inet6 else inet))
      × (resize platform (size platform e) e ≡ some e)
unfolding from_address from_v4 from_v6 get_address get_port set_port protocol size capacity resize
    is_inet6 is_v6 from_native to_native
from_address-get platform make (v4 a) port later short long = (
  ap v4 (ground (arith, long a.to_uint)),
  short port,
  ap v4 (ground (arith, long a.to_uint)),
  short later,
  refl,
  ground arith,
)
from_address-get platform make (v6 a) port later short long =
    (refl, short port, refl, short later, refl, ground arith)

-- `==` is finer than `<=>`: two IPv6 endpoints that differ only in the flow information are not
-- equal, and yet neither is less.
pub flowinfo_only_equality :
    (platform : Platform) (e : Endpoint) (flowinfo : ℕ)
    → e.family ≡ inet6
    → flowinfo ≢ e.word
    → let e' = record e { word = flowinfo } in
      (equal e e' ≡ false) × (order_endpoint platform e e' ≡ Ordering.eq)
unfolding equal order_endpoint get_address get_port is_inet6 order
flowinfo_only_equality platform e flowinfo six differ =
    let a = v6 (record { bytes = e.addr6; scope_id = e.scope }) in
    (ground (arith, six, differ), ground (arith, six, (order_address_total a a a).0.1 refl))
