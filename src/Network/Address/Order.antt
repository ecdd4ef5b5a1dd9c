-- ===== src/Network/Address/Order.antt =====
-- The comparison of addresses.
use Prim.Native.Nat.{Ordering}
use mathlib.Core.Path.{subst}
use svarog_io.Common.{ℕ, ◌≡◌, ◌↔◌, refl, ap, List, [], ◌∷◌, true, arith}
use svarog_io.Network.Address.Either.{
  Address, v4, v6, same_bytes, same_v6, same_address, order, order_bytes, order_v6, order_address,
}

order_bytes_exact : (a b : List ℕ) → (order_bytes a b ≡ Ordering.eq) → a ≡ b
unfolding order_bytes order
order_bytes_exact [] [] h = refl
order_bytes_exact [] (y ∷ ys) h = ground (arith, h)
order_bytes_exact (x ∷ xs) [] h = ground (arith, h)
order_bytes_exact (x ∷ xs) (y ∷ ys) h = ground (arith, order_bytes_exact xs ys, h)

order_bytes_refl : (a : List ℕ) → order_bytes a a ≡ Ordering.eq
unfolding order_bytes order
order_bytes_refl [] = refl
order_bytes_refl (x ∷ xs) = ground (arith, order_bytes_refl xs)

order_bytes_flip : (a b : List ℕ) → order_bytes a b ≡ Ordering.lt → order_bytes b a ≡ Ordering.gt
unfolding order_bytes order
order_bytes_flip [] [] h = ground (arith, h)
order_bytes_flip [] (y ∷ ys) h = refl
order_bytes_flip (x ∷ xs) [] h = ground (arith, h)
order_bytes_flip (x ∷ xs) (y ∷ ys) h = ground (arith, order_bytes_flip xs ys, h)

order_bytes_flip_back :
    (a b : List ℕ) → order_bytes b a ≡ Ordering.gt → order_bytes a b ≡ Ordering.lt
unfolding order_bytes order
order_bytes_flip_back [] [] h = ground (arith, h)
order_bytes_flip_back [] (y ∷ ys) h = refl
order_bytes_flip_back (x ∷ xs) [] h = ground (arith, h)
order_bytes_flip_back (x ∷ xs) (y ∷ ys) h = ground (arith, order_bytes_flip_back xs ys, h)

same_bytes_exact : (a b : List ℕ) → same_bytes a b ≡ true → a ≡ b
unfolding same_bytes
same_bytes_exact [] [] h = refl
same_bytes_exact [] (y ∷ ys) h = ground (arith, h)
same_bytes_exact (x ∷ xs) [] h = ground (arith, h)
same_bytes_exact (x ∷ xs) (y ∷ ys) h = ground (arith, same_bytes_exact xs ys, h)

same_bytes_refl : (a : List ℕ) → same_bytes a a ≡ true
unfolding same_bytes
same_bytes_refl [] = refl
same_bytes_refl (x ∷ xs) = ground (arith, same_bytes_refl xs)

-- `==` of addresses is true of equal ones only.
same_address_exact : (a b : Address) → (same_address a b ≡ true) ↔ (a ≡ b)
unfolding same_address same_v6
same_address_exact a b = (exact a b, λ e. subst (λ x. same_address a x ≡ true) e (reflexive a))
  where
    exact : (a b : Address) → same_address a b ≡ true → a ≡ b
    exact (v4 a) (v4 b) h = ap v4 (ground (arith, h))
    exact (v4 a) (v6 b) h = ground (arith, h)
    exact (v6 a) (v4 b) h = ground (arith, h)
    exact (v6 a) (v6 b) h = ap v6 (ground (arith, h, same_bytes_exact a.bytes b.bytes))

    reflexive : (a : Address) → same_address a a ≡ true
    reflexive (v4 a) = ground arith
    reflexive (v6 a) = ground (arith, same_bytes_refl a.bytes)

order_bytes_trans :
    (a b c : List ℕ)
    → order_bytes a b ≡ Ordering.lt
    → order_bytes b c ≡ Ordering.lt
    → order_bytes a c ≡ Ordering.lt
unfolding order_bytes order
order_bytes_trans [] [] c h k = ground (arith, h)
order_bytes_trans [] (y ∷ ys) [] h k = ground (arith, k)
order_bytes_trans [] (y ∷ ys) (z ∷ zs) h k = refl
order_bytes_trans (x ∷ xs) [] c h k = ground (arith, h)
order_bytes_trans (x ∷ xs) (y ∷ ys) [] h k = ground (arith, k)
order_bytes_trans (x ∷ xs) (y ∷ ys) (z ∷ zs) h k =
    ground
      (arith, h, k, order_bytes_trans xs ys zs, order_bytes_exact xs ys, order_bytes_exact ys zs)

-- `<=>` of addresses is a strict total order that agrees with `==`: two addresses compare equal
-- exactly if they are one address, and exactly then `==` is true of them; one is less than another
-- exactly if the other is greater than it; and what is less than a lesser one is less.
pub order_address_total :
    (a b c : Address)
    → ((order_address a b ≡ Ordering.eq) ↔ (a ≡ b))
      × ((same_address a b ≡ true) ↔ (a ≡ b))
      × ((order_address a b ≡ Ordering.lt) ↔ (order_address b a ≡ Ordering.gt))
      × (order_address a b ≡ Ordering.lt
          → order_address b c ≡ Ordering.lt
          → order_address a c ≡ Ordering.lt)
unfolding order_address order_v6 order
order_address_total a b c = (
  (exact a b, λ e. subst (λ x. order_address a x ≡ Ordering.eq) e (reflexive a)),
  same_address_exact a b,
  (flip a b, flip_back a b),
  trans a b c,
)
  where
    exact : (a b : Address) → order_address a b ≡ Ordering.eq → a ≡ b
    exact (v4 a) (v4 b) h = ap v4 (ground (arith, h))
    exact (v4 a) (v6 b) h = ground (arith, h)
    exact (v6 a) (v4 b) h = ground (arith, h)
    exact (v6 a) (v6 b) h = ap v6 (ground (arith, h, order_bytes_exact a.bytes b.bytes))

    reflexive : (a : Address) → order_address a a ≡ Ordering.eq
    reflexive (v4 a) = ground arith
    reflexive (v6 a) = ground (arith, order_bytes_refl a.bytes)

    flip : (a b : Address) → order_address a b ≡ Ordering.lt → order_address b a ≡ Ordering.gt
    flip (v4 a) (v4 b) h = ground (arith, h)
    flip (v4 a) (v6 b) h = refl
    flip (v6 a) (v4 b) h = ground (arith, h)
    flip (v6 a) (v6 b) h = ground (
      arith,
      h,
      order_bytes_flip a.bytes b.bytes,
      order_bytes_exact a.bytes b.bytes,
      order_bytes_refl b.bytes,
    )

    flip_back : (a b : Address) → order_address b a ≡ Ordering.gt → order_address a b ≡ Ordering.lt
    flip_back (v4 a) (v4 b) h = ground (arith, h)
    flip_back (v4 a) (v6 b) h = refl
    flip_back (v6 a) (v4 b) h = ground (arith, h)
    flip_back (v6 a) (v6 b) h = ground (
      arith,
      h,
      order_bytes_flip_back a.bytes b.bytes,
      order_bytes_exact b.bytes a.bytes,
      order_bytes_refl a.bytes,
    )

    trans :
        (a b c : Address)
        → order_address a b ≡ Ordering.lt
        → order_address b c ≡ Ordering.lt
        → order_address a c ≡ Ordering.lt
    trans (v4 a) (v4 b) (v4 c) h k = ground (arith, h, k)
    trans (v4 a) (v4 b) (v6 c) h k = refl
    trans (v4 a) (v6 b) (v4 c) h k = ground (arith, k)
    trans (v4 a) (v6 b) (v6 c) h k = refl
    trans (v6 a) (v4 b) c h k = ground (arith, h)
    trans (v6 a) (v6 b) (v4 c) h k = ground (arith, k)
    trans (v6 a) (v6 b) (v6 c) h k = ground (
      arith,
      h,
      k,
      order_bytes_trans a.bytes b.bytes c.bytes,
      order_bytes_exact a.bytes b.bytes,
      order_bytes_exact b.bytes c.bytes,
      order_bytes_refl b.bytes,
    )
