-- ===== src/Network/Address/Bytes.antt =====
-- Addresses and their bytes.
use svarog_io.Common.{◌≤◌, ◌<◌, ◌≡◌, ◌↔◌, ◌⊎◌, refl, true, false, some, arith}
use svarog_io.Network.Address.V4.{
  AddressV4, Bytes4, from_bytes, to_bytes, is_loopback, is_multicast, is_private, is_link_local,
}
use svarog_io.Network.Address.V6.{
  v4_mapped, is_v4_mapped, is_v4_compatible, to_v4, zeros_first, byte,
}

-- The bytes of an IPv4 address below 2 ^ 32 give it back, and four bytes below 256 are the bytes of
-- the address that they give.
pub from_bytes-to_bytes :
    (a : AddressV4) (b : Bytes4)
    → a.to_uint < 4294967296
    → (b.b0 < 256) × (b.b1 < 256) × (b.b2 < 256) × (b.b3 < 256)
    → (from_bytes (to_bytes a) ≡ a) × (to_bytes (from_bytes b) ≡ b)
unfolding from_bytes to_bytes
from_bytes-to_bytes a b small (h0, h1, h2, h3) = (ground arith, ground arith)

-- What the masks mean for an address of four bytes below 256: private is 10/8, 172.16/12 and
-- 192.168/16, loopback is 127/8, multicast is 224/4, and link-local is 169.254/16.
pub masks_exact :
    (b : Bytes4)
    → (b.b0 < 256) × (b.b1 < 256) × (b.b2 < 256) × (b.b3 < 256)
    → ((is_private (from_bytes b) ≡ true) ↔ (
        (b.b0 ≡ 10) ⊎ (((b.b0 ≡ 172) × (16 ≤ b.b1) × (b.b1 < 32)) ⊎ ((b.b0 ≡ 192) × (b.b1 ≡ 168)))))
      × ((is_loopback (from_bytes b) ≡ true) ↔ (b.b0 ≡ 127))
      × ((is_multicast (from_bytes b) ≡ true) ↔ ((224 ≤ b.b0) × (b.b0 < 240)))
      × ((is_link_local (from_bytes b) ≡ true) ↔ ((b.b0 ≡ 169) × (b.b1 ≡ 254)))
unfolding from_bytes is_private is_loopback is_multicast is_link_local
masks_exact b (h0, h1, h2, h3) = (ground arith, ground arith, ground arith, ground arith)

-- An IPv4 address below 2 ^ 32, mapped to IPv6, is seen as mapped and as nothing else, and `to_v4`
-- gives it back.
pub to_v4-v4_mapped :
    (a : AddressV4)
    → a.to_uint < 4294967296
    → (to_v4 (v4_mapped a) ≡ some a)
      × (is_v4_mapped (v4_mapped a) ≡ true)
      × (is_v4_compatible (v4_mapped a) ≡ false)
unfolding to_v4 v4_mapped is_v4_mapped is_v4_compatible zeros_first byte from_bytes to_bytes
to_v4-v4_mapped a small = (ground arith, refl, refl)
