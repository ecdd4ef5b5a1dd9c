-- ===== src/Network/Address/Either.antt =====
-- `address`, which holds one of the two kinds, and the comparisons.
use Prim.Native.Nat.{Ordering}
use svarog_io.Common.{
  ℕ, Bool, true, false, List, [], ◌∷◌, Option, none, some, ltb, ◌==◌, ◌&&◌, if◌then◌else◌,
}
use svarog_io.Network.Address.V4.{AddressV4}
use svarog_io.Network.Address.V4
use svarog_io.Network.Address.V6.{AddressV6}
use svarog_io.Network.Address.V6

pub data Address : Type 0 where
  v4 : AddressV4 → Address
  v6 : AddressV6 → Address

unfoldable pub is_v4 : Address → Bool
is_v4 (v4 a) = true
is_v4 (v6 a) = false

unfoldable pub is_v6 : Address → Bool
is_v6 (v4 a) = false
is_v6 (v6 a) = true

-- `to_v4` and `to_v6`: `none` stands for a thrown `bad_address_cast`.
unfoldable pub get_v4 : Address → Option AddressV4
get_v4 (v4 a) = some a
get_v4 (v6 a) = none

unfoldable pub get_v6 : Address → Option AddressV6
get_v6 (v4 a) = none
get_v6 (v6 a) = some a

unfoldable pub is_unspecified : Address → Bool
unfolding V4.is_unspecified V6.is_unspecified
is_unspecified (v4 a) = V4.is_unspecified a
is_unspecified (v6 a) = V6.is_unspecified a

unfoldable pub is_loopback : Address → Bool
unfolding V4.is_loopback V6.is_loopback
is_loopback (v4 a) = V4.is_loopback a
is_loopback (v6 a) = V6.is_loopback a

unfoldable pub is_multicast : Address → Bool
unfolding V4.is_multicast V6.is_multicast
is_multicast (v4 a) = V4.is_multicast a
is_multicast (v6 a) = V6.is_multicast a

-- `==` of two arrays of one size.
unfoldable pub same_bytes : List ℕ → List ℕ → Bool
same_bytes [] [] = true
same_bytes [] (y ∷ ys) = false
same_bytes (x ∷ xs) [] = false
same_bytes (x ∷ xs) (y ∷ ys) = let rest = same_bytes xs ys in (x == y) && rest

-- `operator==` of `address_v6`
unfoldable pub same_v6 : AddressV6 → AddressV6 → Bool
unfolding same_bytes
same_v6 a b = same_bytes a.bytes b.bytes && (a.scope_id == b.scope_id)

-- `operator==` of `address`: the `==` of `std::variant`, and the one of `address_v4`, of its member.
unfoldable pub same_address : Address → Address → Bool
unfolding same_v6
same_address (v4 a) (v4 b) = a.to_uint == b.to_uint
same_address (v4 a) (v6 b) = false
same_address (v6 a) (v4 b) = false
same_address (v6 a) (v6 b) = same_v6 a b

-- `<=>` of two numbers, and of two arrays of one size.
unfoldable pub order : ℕ → ℕ → Ordering
order a b = if ltb a b then Ordering.lt else if ltb b a then Ordering.gt else Ordering.eq

unfoldable pub order_bytes : List ℕ → List ℕ → Ordering
unfolding order
order_bytes [] [] = Ordering.eq
order_bytes [] (y ∷ ys) = Ordering.lt
order_bytes (x ∷ xs) [] = Ordering.gt
order_bytes (x ∷ xs) (y ∷ ys) =
    let rest = order_bytes xs ys in
    elim (order x y) [ Ordering.lt ↦ Ordering.lt | Ordering.gt ↦ Ordering.gt | Ordering.eq ↦ rest ]

unfoldable pub order_v6 : AddressV6 → AddressV6 → Ordering
unfolding order order_bytes
order_v6 a b = elim (order_bytes a.bytes b.bytes) [
  | Ordering.lt ↦ Ordering.lt
  | Ordering.gt ↦ Ordering.gt
  | Ordering.eq ↦ order a.scope_id b.scope_id
]

-- `operator<=>` of `address`
unfoldable pub order_address : Address → Address → Ordering
unfolding order order_v6
order_address (v4 a) (v6 b) = Ordering.lt
order_address (v6 a) (v4 b) = Ordering.gt
order_address (v4 a) (v4 b) = order a.to_uint b.to_uint
order_address (v6 a) (v6 b) = order_v6 a b
