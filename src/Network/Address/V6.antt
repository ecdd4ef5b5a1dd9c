-- ===== src/Network/Address/V6.antt =====
-- `address_v6`
use svarog_io.Common.{
  ℕ, zero, suc, ◌/◌, ◌%◌, Bool, true, false, not, ◌&&◌, List, [], ◌∷◌, Option, none, some, ◌==◌,
  if◌then◌else◌,
}
use svarog_io.Network.Address.V4.{AddressV4, from_bytes, to_bytes}

-- `m_bytes`, of length 16, and `m_scope_id`.
pub record AddressV6 : Type 0 where
  pub bytes : List ℕ
  pub scope_id : ℕ

unfoldable pub set_scope_id : ℕ → AddressV6 → AddressV6
set_scope_id id a = record a { scope_id = id }

-- `m_bytes[i]`
unfoldable pub byte : ℕ → List ℕ → ℕ
byte i [] = 0
byte zero (b ∷ bs) = b
byte (suc i) (b ∷ bs) = byte i bs

-- The loops that return false at a byte that is not 0, among the first `n`.
unfoldable pub zeros_first : ℕ → List ℕ → Bool
zeros_first zero bs = true
zeros_first (suc n) [] = true
zeros_first (suc n) (b ∷ bs) = if b == 0 then zeros_first n bs else false

unfoldable pub is_unspecified : AddressV6 → Bool
unfolding zeros_first
is_unspecified a = zeros_first 16 a.bytes

unfoldable pub is_loopback : AddressV6 → Bool
unfolding zeros_first byte
is_loopback a = if zeros_first 15 a.bytes then byte 15 a.bytes == 1 else false

unfoldable pub is_multicast : AddressV6 → Bool
unfolding byte
is_multicast a = byte 0 a.bytes == 255

-- `m_bytes[1] & 0xC0`
unfoldable pub is_link_local : AddressV6 → Bool
unfolding byte
is_link_local a = (byte 0 a.bytes == 254) && (byte 1 a.bytes / 64 % 4 == 2)

unfoldable pub is_site_local : AddressV6 → Bool
unfolding byte
is_site_local a = (byte 0 a.bytes == 254) && (byte 1 a.bytes / 64 % 4 == 3)

unfoldable pub is_v4_mapped : AddressV6 → Bool
unfolding zeros_first byte
is_v4_mapped a = zeros_first 10 a.bytes && ((byte 10 a.bytes == 255) && (byte 11 a.bytes == 255))

unfoldable pub is_v4_compatible : AddressV6 → Bool
unfolding zeros_first is_unspecified is_loopback
is_v4_compatible a =
    if zeros_first 12 a.bytes then not (is_unspecified a) && not (is_loopback a) else false

-- `to_v4`: `none` stands for a thrown `bad_address_cast`.
unfoldable pub to_v4 : AddressV6 → Option AddressV4
unfolding is_v4_mapped is_v4_compatible byte from_bytes
to_v4 a =
    if not (is_v4_mapped a) && not (is_v4_compatible a)
    then none
    else some (
        from_bytes (record {
          b0 = byte 12 a.bytes;
          b1 = byte 13 a.bytes;
          b2 = byte 14 a.bytes;
          b3 = byte 15 a.bytes;
        }))

unfoldable pub v4_mapped : AddressV4 → AddressV6
unfolding to_bytes
v4_mapped a =
    let b = to_bytes a in
    record {
      bytes = 0 ∷ 0 ∷ 0 ∷ 0 ∷ 0 ∷ 0 ∷ 0 ∷ 0 ∷ 0 ∷ 0 ∷ 255 ∷ 255 ∷ b.b0 ∷ b.b1 ∷ b.b2 ∷ b.b3 ∷ [];
      scope_id = 0;
    }

abbrev pub any : AddressV6
any = record {
  bytes = 0 ∷ 0 ∷ 0 ∷ 0 ∷ 0 ∷ 0 ∷ 0 ∷ 0 ∷ 0 ∷ 0 ∷ 0 ∷ 0 ∷ 0 ∷ 0 ∷ 0 ∷ 0 ∷ [];
  scope_id = 0;
}

abbrev pub loopback : AddressV6
loopback = record {
  bytes = 0 ∷ 0 ∷ 0 ∷ 0 ∷ 0 ∷ 0 ∷ 0 ∷ 0 ∷ 0 ∷ 0 ∷ 0 ∷ 0 ∷ 0 ∷ 0 ∷ 0 ∷ 1 ∷ [];
  scope_id = 0;
}
