-- ===== src/Network/Address/Text/Lemmas.antt =====
-- Texts that lack a character, and what the searches of the text functions make of them.
use svarog_io.Common.{
  ℕ, suc, ◌≡◌, refl, ap, Bool, true, false, List, [], ◌∷◌, ◌++◌, none, some, ◌==◌, if◌then◌else◌,
  length, arith,
}
use svarog_io.Network.Address.Text.{c_str, find, take, drop}

abbrev pub lacks : ℕ → List ℕ → Bool
lacks x [] = true
lacks x (c ∷ s) = if c == x then false else lacks x s

pub c_str-append : (s u : List ℕ) → lacks 0 s ≡ true → c_str (s ++ u) ≡ s ++ c_str u
unfolding c_str
c_str-append [] u h = refl
c_str-append (c ∷ s) u h = ground (arith, h, c_str-append s u)

pub c_str_whole : (s : List ℕ) → lacks 0 s ≡ true → c_str s ≡ s
unfolding c_str
c_str_whole [] h = refl
c_str_whole (c ∷ s) h = ground (arith, h, c_str_whole s)

pub c_str_cut : (s u : List ℕ) → c_str (s ++ 0 ∷ u) ≡ c_str s
unfolding c_str
c_str_cut [] u = refl
c_str_cut (c ∷ s) u = ground (arith, c_str_cut s u)

pub lacks-append : (x : ℕ) (s u : List ℕ) → lacks x s ≡ false → lacks x (s ++ u) ≡ false
lacks-append x [] u h = ground (arith, h)
lacks-append x (c ∷ s) u h = ground (arith, h, lacks-append x s u)

pub lacks_both :
    (x : ℕ) (s u : List ℕ) → lacks x s ≡ true → lacks x u ≡ true → lacks x (s ++ u) ≡ true
lacks_both x [] u h k = k
lacks_both x (c ∷ s) u h k = ground (arith, h, k, lacks_both x s u)

pub find-append : (x : ℕ) (s u : List ℕ) → lacks x s ≡ true → find x (s ++ x ∷ u) ≡ some (length s)
unfolding find
find-append x [] u h = ground arith
find-append x (c ∷ s) u h = ground (arith, h, find-append x s u)

pub find_nothing : (x : ℕ) (s : List ℕ) → lacks x s ≡ true → find x s ≡ none
unfolding find
find_nothing x [] h = refl
find_nothing x (c ∷ s) h = ground (arith, h, find_nothing x s)

pub take-append : (s u : List ℕ) → take (length s) (s ++ u) ≡ s
unfolding take
take-append [] u = refl
take-append (c ∷ s) u = ap (λ r. c ∷ r) (take-append s u)

pub drop-append : (c : ℕ) (s u : List ℕ) → drop (suc (length s)) (s ++ c ∷ u) ≡ u
unfolding drop
drop-append c [] u = refl
drop-append c (d ∷ s) u = drop-append c s u
