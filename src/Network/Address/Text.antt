-- ===== src/Network/Address/Text.antt =====
-- The texts of addresses: `to_string`, `from_string` and `make_address`. A text is the list
-- of its character codes, where 0 ends a C text, 37 is `%` and 46 is a point. What the C and C++
-- libraries do with texts is a record of parameters.
pub mod Lemmas
pub mod Reading
use svarog_io.Common.{
  ℕ, zero, suc, ◌+◌, ◌*◌, ◌/◌, ◌%◌, ◌^◌, Bool, true, false, List, [], ◌∷◌, ◌++◌, Option, none, some,
  ◌==◌, leb, if◌then◌else◌, length,
}
use svarog_io.Network.Address.V4.{AddressV4, Bytes4, from_native, to_bytes}
use svarog_io.Network.Address.V4
use svarog_io.Network.Address.V6.{AddressV6}
use svarog_io.Network.Address.Either.{Address, v4, v6}

-- `ntohl`; `inet_pton` for `AF_INET` and `AF_INET6` and `inet_ntop` for `AF_INET6`, where `none` is
-- a result that is not 1, or null; `std::stoul`, where `none` is an exception; and a byte
-- as `std::format` prints it, and `std::to_string`.
pub record Texts : Type 0 where
  pub ntohl : ℕ → ℕ
  pub pton4 : List ℕ → Option ℕ
  pub pton6 : List ℕ → Option (List ℕ)
  pub ntop6 : List ℕ → Option (List ℕ)
  pub stoul : List ℕ → Option ℕ
  pub format_byte : ℕ → List ℕ
  pub to_decimal : ℕ → List ℕ

-- What a function that takes a C text sees of it.
unfoldable pub c_str : List ℕ → List ℕ
c_str [] = []
c_str (c ∷ s) = let rest = c_str s in if c == 0 then [] else c ∷ rest

-- `find`
unfoldable pub find : ℕ → List ℕ → Option ℕ
find x [] = none
find x (c ∷ s) =
    let rest = find x s in
    if c == x then some 0 else elim rest [ none ↦ none | some n ↦ some (suc n) ]

-- `substr(0, n)` and `substr(n)`
unfoldable pub take : ℕ → List ℕ → List ℕ
take zero s = []
take (suc n) [] = []
take (suc n) (c ∷ s) = c ∷ take n s

unfoldable pub drop : ℕ → List ℕ → List ℕ
drop zero s = s
drop (suc n) [] = []
drop (suc n) (c ∷ s) = drop n s

-- `std::format("{}.{}.{}.{}")`
unfoldable pub dotted : Texts → Bytes4 → List ℕ
dotted t b =
    t.format_byte b.b0
    ++ 46 ∷ (t.format_byte b.b1 ++ 46 ∷ (t.format_byte b.b2 ++ 46 ∷ t.format_byte b.b3))

unfoldable pub to_string_v4 : Texts → AddressV4 → List ℕ
unfolding dotted to_bytes
to_string_v4 t a = dotted t (to_bytes a)

-- The buffer has `INET_ADDRSTRLEN + 1` characters.
unfoldable pub from_string_v4 : Texts → List ℕ → Option AddressV4
unfolding c_str from_native
from_string_v4 t s =
    if leb 17 (length s)
    then none
    else elim (t.pton4 (c_str s)) [ none ↦ none | some n ↦ some (from_native t.ntohl n) ]

-- `::` when `inet_ntop` fails
unfoldable pub to_string_v6 : Texts → AddressV6 → List ℕ
to_string_v6 t a = elim (t.ntop6 a.bytes) [
  | none ↦ 58 ∷ 58 ∷ []
  | some s ↦ if a.scope_id == 0 then s else s ++ 37 ∷ t.to_decimal a.scope_id
]

-- The `try` block: a text that is not a number leaves the scope 0.
unfoldable pub read_scope : Texts → List ℕ → ℕ
read_scope t s = elim (t.stoul s) [ none ↦ 0 | some n ↦ n % 2 ^ 32 ]

-- The part before the scope is read as a C text.
unfoldable pub read_v6 : Texts → List ℕ → ℕ → Option AddressV6
unfolding c_str
read_v6 t addr_part scope = elim (t.pton6 (c_str addr_part)) [
  | none ↦ none
  | some bs ↦ some (record { bytes = bs; scope_id = scope })
]

unfoldable pub from_string_v6 : Texts → List ℕ → Option AddressV6
unfolding find take drop read_scope read_v6
from_string_v6 t s = elim (find 37 s) [
  | none ↦ read_v6 t s 0
  | some pos ↦ read_v6 t (take pos s) (read_scope t (drop (suc pos) s))
]

unfoldable pub to_string : Texts → Address → List ℕ
unfolding to_string_v4 to_string_v6
to_string t (v4 a) = to_string_v4 t a
to_string t (v6 a) = to_string_v6 t a

unfoldable pub from_string : Texts → List ℕ → Option Address
unfolding from_string_v4 from_string_v6
from_string t s = elim (from_string_v4 t s) [
  | some a ↦ some (v4 a)
  | none ↦ elim (from_string_v6 t s) [ none ↦ none | some a ↦ some (v6 a) ]
]

-- `make_address` that throws: `none` stands for `std::invalid_argument`.
unfoldable pub make_address : Texts → List ℕ → Option Address
unfolding from_string
make_address t s = from_string t s

-- `make_address` with an error code: the result, and true if the code is `invalid_argument`.
unfoldable pub make_address_ec : Texts → List ℕ → Address × Bool
unfolding from_string
make_address_ec t s = elim (from_string t s) [ none ↦ (v4 V4.any, true) | some a ↦ (a, false) ]
