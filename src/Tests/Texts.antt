-- ===== src/Tests/Texts.antt =====
-- The texts of addresses, on a platform whose texts have one character for a byte.
use Prim.Native.Nat.{bit_xor}
use svarog_io.Common.{
  ℕ, ◌+◌, ◌-◌, ◌*◌, ◌^◌, ◌<◌, ◌≡◌, refl, ap, true, false, ◌&&◌, List, [], ◌∷◌, ◌++◌, map, Option,
  none, some, ◌==◌, leb, if◌then◌else◌, arith,
}
use svarog_io.Network.Address.V4.{from_bytes}
use svarog_io.Network.Address.V6
use svarog_io.Network.Address.V6.{AddressV6, set_scope_id}
use svarog_io.Network.Address.Either.{v6}
use svarog_io.Network.Address.Hash.{Hashes, hash_v6}
use svarog_io.Network.Address.Text.{
  Texts, dotted, find, take, drop, c_str, read_v6, from_string_v6, to_string_v6, from_string,
  to_string, make_address, make_address_ec,
}
use svarog_io.Network.Address.Text.Lemmas.{lacks}
use svarog_io.Network.Address.Text.Reading.{
  Documented, from_string-to_string, from_string_v6_forgives,
}

-- The character of a byte is the byte and 256.
abbrev mark : ℕ → ℕ
mark b = b + 256

abbrev unmark : ℕ → ℕ
unmark c = c - 256

abbrev read_dotted : List ℕ → Option ℕ
read_dotted (c0 ∷ p0 ∷ c1 ∷ p1 ∷ c2 ∷ p2 ∷ c3 ∷ []) =
    if leb 256 c0
      && (p0 == 46)
      && leb 256 c1
      && (p1 == 46)
      && leb 256 c2
      && (p2 == 46)
      && leb 256 c3
    then some (unmark c0 * 16777216 + unmark c1 * 65536 + unmark c2 * 256 + unmark c3)
    else none
read_dotted _ = none

abbrev read_bytes : List ℕ → Option (List ℕ)
read_bytes (c ∷ s) = if c == 58 then some (map unmark s) else none
read_bytes [] = none

abbrev read_number : List ℕ → Option ℕ
read_number (c ∷ []) = if leb 256 c then some (unmark c) else none
read_number _ = none

abbrev one_char : Texts
one_char = record {
  ntohl = λ n. n;
  pton4 = read_dotted;
  pton6 = read_bytes;
  ntop6 = λ bs. some (58 ∷ map mark bs);
  stoul = read_number;
  format_byte = λ b. mark b ∷ [];
  to_decimal = λ n. mark n ∷ [];
}

unmark-mark : (bs : List ℕ) → map unmark (map mark bs) ≡ bs
unmark-mark [] = refl
unmark-mark (b ∷ bs) = ground (arith, unmark-mark bs)

marks_lack : (c : ℕ) (bs : List ℕ) → c < 256 → lacks c (map mark bs) ≡ true
marks_lack c [] h = refl
marks_lack c (b ∷ bs) h = ground (arith, marks_lack c bs h)

no_colon_read : (s : List ℕ) → lacks 58 s ≡ false → read_dotted s ≡ none
no_colon_read [] h = refl
no_colon_read (a0 ∷ []) h = refl
no_colon_read (a0 ∷ a1 ∷ []) h = refl
no_colon_read (a0 ∷ a1 ∷ a2 ∷ []) h = refl
no_colon_read (a0 ∷ a1 ∷ a2 ∷ a3 ∷ []) h = refl
no_colon_read (a0 ∷ a1 ∷ a2 ∷ a3 ∷ a4 ∷ []) h = refl
no_colon_read (a0 ∷ a1 ∷ a2 ∷ a3 ∷ a4 ∷ a5 ∷ []) h = refl
no_colon_read (c0 ∷ p0 ∷ c1 ∷ p1 ∷ c2 ∷ p2 ∷ c3 ∷ []) h = ground (arith, h)
no_colon_read (c0 ∷ p0 ∷ c1 ∷ p1 ∷ c2 ∷ p2 ∷ c3 ∷ a ∷ s) h = refl

one_char-Documented : Documented one_char
unfolding dotted from_bytes
one_char-Documented = record {
  byte_short = λ b h. ground arith;
  pton4_reads = λ b h. (_, ground arith, refl);
  pton4_colon = no_colon_read;
  pton6_reads = λ bs h. (
    58 ∷ map mark bs,
    refl,
    ap some (unmark-mark bs),
    marks_lack 0 bs (omega arith),
    marks_lack 37 bs (omega arith),
    refl,
  );
  stoul_reads = λ n h. ground arith;
}

-- ::1%3
abbrev linked : AddressV6
linked = set_scope_id 3 V6.loopback

from_string-to_string_example :
    (from_string one_char (to_string one_char (v6 linked)) ≡ some (v6 linked))
    × (make_address one_char (to_string one_char (v6 linked)) ≡ some (v6 linked))
    × (make_address_ec one_char (to_string one_char (v6 linked)) ≡ (v6 linked, false))
unfolding set_scope_id
from_string-to_string_example =
    from_string-to_string one_char one_char-Documented (v6 linked) (refl, omega arith)

-- A scope above the range of 32 bits wraps.
from_string_v6_forgives_example :
    from_string_v6 one_char (to_string_v6 one_char V6.loopback ++ 37 ∷ mark (2 ^ 32 + 7) ∷ [])
    ≡ some (set_scope_id 7 V6.loopback)
unfolding from_string_v6 read_v6 find take drop c_str to_string_v6 set_scope_id
from_string_v6_forgives_example =
    (from_string_v6_forgives one_char (58 ∷ map mark V6.loopback.bytes) (mark (2 ^ 32 + 7) ∷ [])
        refl).0
      (2 ^ 32 + 7) refl

-- The scope is mixed into the hash as the last number.
scoped_hash :
    let same : Hashes = record { hash_byte = λ n. n; hash_word = λ n. n } in
    hash_v6 same (set_scope_id 5 V6.any) ≡ bit_xor (hash_v6 same V6.any) 5
unfolding hash_v6 set_scope_id
scoped_hash = refl
