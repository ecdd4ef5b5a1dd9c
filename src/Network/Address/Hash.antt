-- ===== src/Network/Address/Hash.antt =====
-- `std::hash` of addresses. The hashes of a byte and of a 32-bit number are the library's.
use Prim.Native.Nat.{Ordering, bit_xor}
use svarog_io.Common.{ℕ, ◌+◌, ◌*◌, ◌/◌, ◌%◌, ◌^◌, ◌≡◌, ap, List, [], ◌∷◌}
use svarog_io.Network.Address.V4.{AddressV4}
use svarog_io.Network.Address.V6.{AddressV6}
use svarog_io.Network.Address.Either.{Address, v4, v6, order_address}
use svarog_io.Network.Address.Order.{order_address_total}

pub record Hashes : Type 0 where
  pub hash_byte : ℕ → ℕ
  pub hash_word : ℕ → ℕ

unfoldable pub hash_v4 : Hashes → AddressV4 → ℕ
hash_v4 s a = s.hash_word a.to_uint

-- The loop over the bytes. On 64 bits the sum wraps, and `h << 6` loses its high bits.
unfoldable pub hash_bytes : Hashes → ℕ → List ℕ → ℕ
hash_bytes s h [] = h
hash_bytes s h (b ∷ bs) =
    let mixed = (s.hash_byte b + 0x9e3779b9 + h * 64 % 2 ^ 64 + h / 4) % 2 ^ 64 in
    hash_bytes s (bit_xor h mixed) bs

unfoldable pub hash_v6 : Hashes → AddressV6 → ℕ
unfolding hash_bytes
hash_v6 s a = bit_xor (hash_bytes s 0 a.bytes) (s.hash_word a.scope_id)

unfoldable pub hash_address : Hashes → Address → ℕ
unfolding hash_v4 hash_v6
hash_address s (v4 a) = hash_v4 s a
hash_address s (v6 a) = hash_v6 s a

-- Addresses that compare equal have one hash, as unordered containers ask.
pub hash_address-order :
    (s : Hashes) (a b : Address)
    → order_address a b ≡ Ordering.eq
    → hash_address s a ≡ hash_address s b
hash_address-order s a b same = ap (hash_address s) ((order_address_total a b b).0.0 same)
