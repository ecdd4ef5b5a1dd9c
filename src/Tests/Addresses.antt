-- ===== src/Tests/Addresses.antt =====
-- Addresses, and endpoints on a big-endian platform.
use Prim.Native.Nat.{Ordering}
use svarog_io.Common.{◌≡◌, refl, true, false, some, arith}
use svarog_io.Network.Protocol.{tcp, tcp_v6}
use svarog_io.Network.Address.V4.{AddressV4, Bytes4, from_bytes, to_bytes, is_private}
use svarog_io.Network.Address.V4
use svarog_io.Network.Address.V6.{to_v4, v4_mapped, is_v4_mapped, is_v4_compatible}
use svarog_io.Network.Address.V6
use svarog_io.Network.Address.Either.{v4, v6, order_address, order, is_v6}
use svarog_io.Network.Address.Bytes.{from_bytes-to_bytes, masks_exact, to_v4-v4_mapped}
use svarog_io.Network.Address.Order.{order_address_total}
use svarog_io.Network.Endpoint.{
  Endpoint, Platform, from_v6, from_address, get_address, get_port, set_port, protocol, resize,
  size, equal, order_endpoint,
}
use svarog_io.Network.Endpoint.RoundTrip.{from_address-get, flowinfo_only_equality}

abbrev home : Bytes4
home = record { b0 = 172; b1 = 20; b2 = 0; b3 = 1 }

from_bytes-to_bytes_example :
    (from_bytes (to_bytes V4.loopback) ≡ V4.loopback) × (to_bytes (from_bytes home) ≡ home)
from_bytes-to_bytes_example =
    from_bytes-to_bytes V4.loopback home (omega arith)
      (omega arith, omega arith, omega arith, omega arith)

masks_exact_example : is_private (from_bytes home) ≡ true
masks_exact_example =
    (masks_exact home (omega arith, omega arith, omega arith, omega arith)).0.1 (ground arith)

to_v4-v4_mapped_example :
    (to_v4 (v4_mapped V4.loopback) ≡ some V4.loopback)
    × (is_v4_mapped (v4_mapped V4.loopback) ≡ true)
    × (is_v4_compatible (v4_mapped V4.loopback) ≡ false)
to_v4-v4_mapped_example = to_v4-v4_mapped V4.loopback (omega arith)

-- Numbers kept as they are, as on a big-endian machine.
abbrev big_endian : Platform
big_endian = record {
  htons = λ n. n;
  ntohs = λ n. n;
  htonl = λ n. n;
  ntohl = λ n. n;
  sizeof_in = 16;
  sizeof_in6 = 28;
}

abbrev local_web : Endpoint
local_web = from_address big_endian (v6 V6.loopback) 80

from_address-get_example :
    (get_address big_endian local_web ≡ v6 V6.loopback)
    × (get_port big_endian local_web ≡ 80)
    × (get_address big_endian (set_port big_endian 443 local_web) ≡ v6 V6.loopback)
    × (get_port big_endian (set_port big_endian 443 local_web) ≡ 443)
    × (protocol tcp local_web ≡ tcp_v6)
    × (resize big_endian (size big_endian local_web) local_web ≡ some local_web)
unfolding is_v6
from_address-get_example =
    from_address-get big_endian tcp (v6 V6.loopback) 80 443 (λ n. refl) (λ n. refl)

flowinfo_only_equality_example :
    (equal local_web (record local_web { word = 5 }) ≡ false)
    × (order_endpoint big_endian local_web (record local_web { word = 5 }) ≡ Ordering.eq)
unfolding from_address from_v6
flowinfo_only_equality_example = flowinfo_only_equality big_endian local_web 5 refl (ground arith)

order_address_total_example : order_address (v4 V4.any) (v6 V6.any) ≡ Ordering.lt
unfolding order_address order
order_address_total_example =
    (order_address_total (v4 V4.any) (v4 V4.loopback) (v6 V6.any)).3 refl refl
