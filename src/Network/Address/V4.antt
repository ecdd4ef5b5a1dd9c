-- ===== src/Network/Address/V4.antt =====
-- `address_v4`
use svarog_io.Common.{ℕ, ◌+◌, ◌*◌, ◌/◌, ◌%◌, Bool, true, ◌==◌, if◌then◌else◌}

-- `m_address`, in host order.
pub record AddressV4 : Type 0 where
  pub to_uint : ℕ

-- `bytes_type`
pub record Bytes4 : Type 0 where
  pub b0 : ℕ
  pub b1 : ℕ
  pub b2 : ℕ
  pub b3 : ℕ

unfoldable pub from_bytes : Bytes4 → AddressV4
from_bytes b = record { to_uint = b.b0 * 16777216 + b.b1 * 65536 + b.b2 * 256 + b.b3 }

unfoldable pub to_bytes : AddressV4 → Bytes4
to_bytes a = record {
  b0 = (a.to_uint / 16777216) % 256;
  b1 = (a.to_uint / 65536) % 256;
  b2 = (a.to_uint / 256) % 256;
  b3 = a.to_uint % 256;
}

-- `in_addr` in network order: `htonl` and `ntohl` are the platform's.
unfoldable pub from_native : (ℕ → ℕ) → ℕ → AddressV4
from_native ntohl s_addr = record { to_uint = ntohl s_addr }

unfoldable pub to_native : (ℕ → ℕ) → AddressV4 → ℕ
to_native htonl a = htonl a.to_uint

unfoldable pub is_unspecified : AddressV4 → Bool
is_unspecified a = a.to_uint == 0

-- `m_address & 0xFF000000`, `0xF0000000`, `0xFFF00000` and `0xFFFF0000`
unfoldable pub is_loopback : AddressV4 → Bool
is_loopback a = a.to_uint / 16777216 * 16777216 == 2130706432

unfoldable pub is_multicast : AddressV4 → Bool
is_multicast a = a.to_uint / 268435456 * 268435456 == 3758096384

unfoldable pub is_private : AddressV4 → Bool
is_private a =
    if a.to_uint / 16777216 * 16777216 == 167772160
    then true
    else if a.to_uint / 1048576 * 1048576 == 2886729728
    then true
    else a.to_uint / 65536 * 65536 == 3232235520

unfoldable pub is_link_local : AddressV4 → Bool
is_link_local a = a.to_uint / 65536 * 65536 == 2851995648

abbrev pub any : AddressV4
any = record { to_uint = 0 }

abbrev pub loopback : AddressV4
loopback = record { to_uint = 2130706433 }

abbrev pub broadcast : AddressV4
broadcast = record { to_uint = 4294967295 }
