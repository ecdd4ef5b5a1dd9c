-- ===== src/Network/Address/Text/Reading.antt =====
-- Reading the texts of addresses back.
use mathlib.Core.Option
use svarog_io.Common.{
  ℕ, ◌≤◌, ◌<◌, ◌^◌, ◌%◌, ◌≡◌, true, false, List, [], ◌∷◌, append-nil, ℕ_discrete, ◌+◌, ◌++◌, none,
  some, length, length-append, arith,
}
use svarog_io.Network.Address.V4.{AddressV4, Bytes4, from_bytes, to_bytes, from_native}
use svarog_io.Network.Address.V6.{AddressV6, set_scope_id}
use svarog_io.Network.Address.Either.{Address, v4, v6}
use svarog_io.Network.Address.Bytes.{from_bytes-to_bytes}
use svarog_io.Network.Address.Text.{
  Texts, dotted, c_str, to_string_v4, from_string_v4, to_string_v6, read_scope, read_v6,
  from_string_v6, to_string, from_string, make_address, make_address_ec,
}
use svarog_io.Network.Address.Text.Lemmas.{
  lacks, c_str-append, c_str_whole, c_str_cut, lacks-append, lacks_both, find-append, find_nothing,
  take-append, drop-append,
}

-- What the C and C++ libraries promise: a byte has three digits at most, `inet_pton` reads four bytes
-- with points between them and no text with a colon, it reads what `inet_ntop` prints, which has a
-- colon and neither `%` nor a 0, and `std::stoul` reads what `std::to_string` prints.
pub record Documented (t : Texts) : Type 0 where
  pub byte_short :
      (b : ℕ) → b < 256 → (length (t.format_byte b) ≤ 3) × (lacks 0 (t.format_byte b) ≡ true)
  pub pton4_reads :
      (b : Bytes4)
      → (b.b0 < 256) × (b.b1 < 256) × (b.b2 < 256) × (b.b3 < 256)
      → (n : ℕ) × (t.pton4 (dotted t b) ≡ some n) × (t.ntohl n ≡ (from_bytes b).to_uint)
  pub pton4_colon : (s : List ℕ) → lacks 58 s ≡ false → t.pton4 s ≡ none
  pub pton6_reads :
      (bs : List ℕ)
      → length bs ≡ 16
      → (s : List ℕ) × (t.ntop6 bs ≡ some s)
        × (t.pton6 s ≡ some bs)
        × (lacks 0 s ≡ true)
        × (lacks 37 s ≡ true)
        × (lacks 58 s ≡ false)
  pub stoul_reads : (n : ℕ) → n < 2 ^ 32 → t.stoul (t.to_decimal n) ≡ some n

-- The machine's ranges.
abbrev pub Fits : Address → Type 0
Fits (v4 a) = a.to_uint < 2 ^ 32
Fits (v6 a) = (length a.bytes ≡ 16) × (a.scope_id < 2 ^ 32)

to_bytes_fit :
    (a : AddressV4)
    → a.to_uint < 2 ^ 32
    → let b = to_bytes a in (b.b0 < 256) × (b.b1 < 256) × (b.b2 < 256) × (b.b3 < 256)
unfolding to_bytes
to_bytes_fit a small = (omega arith, omega arith, omega arith, omega arith)

-- A text of at most `n` characters, none of them 0.
abbrev Short : ℕ → List ℕ → Type 0
Short n s = (length s ≤ n) × (lacks 0 s ≡ true)

join-Short : {n : ℕ} (s u : List ℕ) → Short 3 s → Short n u → Short (n + 4) (s ++ 46 ∷ u)
join-Short s u (short, clean) (short', clean') =
    (omega (arith, length-append s (46 ∷ u)), lacks_both 0 s (46 ∷ u) clean clean')

from_string_v6_plain :
    (t : Texts) (s : List ℕ) → lacks 37 s ≡ true → from_string_v6 t s ≡ read_v6 t s 0
unfolding from_string_v6
from_string_v6_plain t s h = ground (arith, find_nothing 37 s h)

from_string_v6_scoped :
    (t : Texts) (s u : List ℕ)
    → lacks 37 s ≡ true
    → from_string_v6 t (s ++ 37 ∷ u) ≡ read_v6 t s (read_scope t u)
unfolding from_string_v6
from_string_v6_scoped t s u h =
    ground (arith, find-append 37 s u h, take-append s (37 ∷ u), drop-append 37 s u)

module _ (t : Texts) (d : Documented t) where
  -- Four bytes with points fit in the buffer of `from_string`, and have no 0.
  dotted-Short :
      (b : Bytes4)
      → (b.b0 < 256) × (b.b1 < 256) × (b.b2 < 256) × (b.b3 < 256)
      → Short 15 (dotted t b)
  unfolding dotted
  dotted-Short b (h0, h1, h2, h3) =
      let s2 = t.format_byte b.b2 ++ 46 ∷ t.format_byte b.b3 in
      let s1 = t.format_byte b.b1 ++ 46 ∷ s2 in
      let short2 =
        join-Short (t.format_byte b.b2) (t.format_byte b.b3) (d.byte_short b.b2 h2)
          (d.byte_short b.b3 h3) in
      let short1 = join-Short (t.format_byte b.b1) s2 (d.byte_short b.b1 h1) short2 in
      join-Short (t.format_byte b.b0) s1 (d.byte_short b.b0 h0) short1

  from_to_v4 : (a : AddressV4) → a.to_uint < 2 ^ 32 → from_string_v4 t (to_string_v4 t a) ≡ some a
  unfolding from_string_v4 to_string_v4 from_native
  from_to_v4 a small =
      let b = to_bytes a in
      let fits = to_bytes_fit a small in
      let short = dotted-Short b fits in
      let (n, reads, value) = d.pton4_reads b fits in
      ground (
        arith,
        short.0,
        c_str_whole (dotted t b) short.1,
        reads,
        value,
        (from_bytes-to_bytes a b small fits).0,
      )

  -- A text with a colon and no 0 before it is no IPv4 address.
  colon_not_v4 :
      (s u : List ℕ) → lacks 0 s ≡ true → lacks 58 s ≡ false → from_string_v4 t (s ++ u) ≡ none
  unfolding from_string_v4
  colon_not_v4 s u clean colon = ground (
    arith,
    c_str-append s u clean,
    d.pton4_colon (s ++ c_str u) (lacks-append 58 s (c_str u) colon),
  )

  from_to_v6 :
      (a : AddressV6)
      → (length a.bytes ≡ 16) × (a.scope_id < 2 ^ 32)
      → (from_string_v4 t (to_string_v6 t a) ≡ none)
        × (from_string_v6 t (to_string_v6 t a) ≡ some a)
  unfolding to_string_v6 read_v6 read_scope
  from_to_v6 a (sixteen, small) =
      let (s, prints, reads, clean, plain, colon) = d.pton6_reads a.bytes sixteen in
      let digits = t.to_decimal a.scope_id in
      elim (ℕ_discrete a.scope_id 0) [
        | yes zero ↦ (
          ground (arith, prints, zero, append-nil s, colon_not_v4 s [] clean colon),
          ground (arith, prints, zero, reads, c_str_whole s clean, from_string_v6_plain t s plain),
        )
        | no scoped ↦ (
          ground (arith, prints, scoped, colon_not_v4 s (37 ∷ digits) clean colon),
          ground (
            arith,
            prints,
            scoped,
            reads,
            c_str_whole s clean,
            from_string_v6_scoped t s digits plain,
            d.stoul_reads a.scope_id small,
          ),
        )
      ]

  from_to : (a : Address) → Fits a → from_string t (to_string t a) ≡ some a
  unfolding to_string from_string
  from_to (v4 a) small = ground (arith, from_to_v4 a small)
  from_to (v6 a) fits = let h = from_to_v6 a fits in ground (arith, h.0, h.1)

  -- The text of an address gives it back: `from_string` of what `to_string` prints is the address,
  -- with its scope, and neither `make_address` reports an error, if the numbers and the bytes are in
  -- the machine's ranges, and the C and C++ libraries do what they promise.
  pub from_string-to_string :
      (a : Address)
      → Fits a
      → (from_string t (to_string t a) ≡ some a)
        × (make_address t (to_string t a) ≡ some a)
        × (make_address_ec t (to_string t a) ≡ (a, false))
  unfolding make_address make_address_ec
  from_string-to_string a fits = let h = from_to a fits in (h, h, ground (arith, h))

-- What reading an IPv6 text forgives: a `%` after a text without one gives the address of that text
-- the scope that follows, modulo 2 ^ 32, and the scope 0 if no number follows; and what comes after
-- a character 0, without a `%`, is not looked at.
pub from_string_v6_forgives :
    (t : Texts) (s u : List ℕ)
    → lacks 37 s ≡ true
    → ((n : ℕ)
        → t.stoul u ≡ some n
        → from_string_v6 t (s ++ 37 ∷ u)
          ≡ Option.map (set_scope_id (n % 2 ^ 32)) (from_string_v6 t s))
      × (t.stoul u ≡ none → from_string_v6 t (s ++ 37 ∷ u) ≡ from_string_v6 t s)
      × (lacks 37 u ≡ true → from_string_v6 t (s ++ 0 ∷ u) ≡ from_string_v6 t s)
unfolding read_v6 read_scope set_scope_id
from_string_v6_forgives t s u plain =
    let scoped = from_string_v6_scoped t s u plain in
    let whole = from_string_v6_plain t s plain in
    (
      λ n h. ground (arith, h, scoped, whole),
      λ h. ground (arith, h, scoped, whole),
      λ h. ground (
        arith,
        whole,
        c_str_cut s u,
        from_string_v6_plain t (s ++ 0 ∷ u) (lacks_both 37 s (0 ∷ u) plain h),
      ),
    )
