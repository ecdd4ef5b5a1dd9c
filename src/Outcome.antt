-- ===== src/Outcome.antt =====
-- Code that changes a state, may end by an exception, and may loop: a state passed along, with the
-- state at the throw kept, and fuel for the loops. A failed precondition ends the process.
pub data Outcome {ℓ κ} (S : Type ℓ) (A : Type κ) : Type (ℓ ⊔ κ) where
  returned : S → A → Outcome S A
  threw : S → Outcome S A
  terminated : Outcome S A
  unfinished : Outcome S A

abbrev pub M {ℓ κ} : Type ℓ → Type κ → Type (ℓ ⊔ κ)
M S A = S → Outcome S A

module _ {ℓ} {S : Type ℓ} where
  infixl 5 ◌>>=◌ ◌>>◌
  abbrev pub ◌>>=◌ {κ μ} : {A : Type κ} {B : Type μ} → M S A → (A → M S B) → M S B
  ◌>>=◌ m f s = elim (m s) [
    | returned s' a ↦ f a s'
    | threw s' ↦ threw s'
    | terminated ↦ terminated
    | unfinished ↦ unfinished
  ]

  abbrev pub ◌>>◌ {κ μ} : {A : Type κ} {B : Type μ} → M S A → M S B → M S B
  m >> k = m >>= λ _. k

  abbrev pub pure {κ} : {A : Type κ} → A → M S A
  pure a s = returned s a

  abbrev pub read {κ} : {A : Type κ} → (S → A) → M S A
  read f s = returned s (f s)

  abbrev pub modify : (S → S) → M S (Unit {0})
  modify f s = returned (f s) tt

  -- A step that changes the state and has a result.
  abbrev pub lift {κ} : {A : Type κ} → (S → S × A) → M S A
  lift f s = let (s', a) = f s in returned s' a
