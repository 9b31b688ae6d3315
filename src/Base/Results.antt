-- ===== src/Base/Results.antt =====
-- A value or an error, as Go's `(T, error)` pair is used.
use mathlib.Core.Path.{◌≡◌, refl}
use mathlib.Core.Bool.{Bool, true, false}
use mathlib.Core.Logic.{◌⊎◌, inl, inr}
use mathlib.Core.List.{List, [], ◌∷◌}
use native.Mathlib.Omega.{arith}
use devopsellence.Base.Lists.{All}

pub data Result {ℓ κ} (E : Type κ) (A : Type ℓ) : Type (ℓ ⊔ κ) where
  ok : A → Result E A
  err : E → Result E A

module _ {ℓ κ μ} {E : Type κ} {A : Type ℓ} {B : Type μ} where
  infixl 5 ◌>>=◌
  abbrev pub ◌>>=◌ : Result E A → (A → Result E B) → Result E B
  ok a >>= f = f a
  err e >>= f = err e

infixl 5 ◌>>◌
abbrev pub ◌>>◌ {ℓ κ} : {E : Type κ} {B : Type ℓ} → Result E (Unit {0}) → Result E B → Result E B
m >> k = m >>= λ _. k

-- `if bad { return e }`
abbrev pub reject_if {κ} : {E : Type κ} → Bool → E → Result E (Unit {0})
reject_if true e = err e
reject_if false e = ok tt

module _ {ℓ κ} {E : Type κ} {A : Type ℓ} where
  pub Result-cases : (r : Result E A) → ((a : A) × (r ≡ ok a)) ⊎ ((e : E) × (r ≡ err e))
  Result-cases (ok a) = inl (a, refl)
  Result-cases (err e) = inr (e, refl)

module _ {ℓ κ} {E : Type κ} {A : Type ℓ} where
  -- `for _, a := range as { if err := f(a); err != nil { return err } }`
  abbrev pub for_each : (A → Result E (Unit {0})) → List A → Result E (Unit {0})
  for_each f [] = ok tt
  for_each f (a ∷ xs) = f a >> for_each f xs

  pub for_each-All :
      (f : A → Result E (Unit {0})) (xs : List A)
      → for_each f xs ≡ ok tt
      → All (λ a. f a ≡ ok tt) xs
  for_each-All f [] h = tt
  for_each-All f (a ∷ xs) h = elim (Result-cases (f a)) [
    | inl (tt, e) ↦ (e, for_each-All f xs (rw e at h))
    | inr (x, e) ↦ absurd (ground arith)
  ]

module _ {ℓ κ} {E : Type κ} {A : Type ℓ} where
  -- What runs after a test that passed.
  pub reject_if-rest :
      (bad : Bool) (e : E) (rest : Result E A) (a : A)
      → (reject_if bad e >> rest) ≡ ok a
      → rest ≡ ok a
  reject_if-rest true e rest a h = absurd (ground arith)
  reject_if-rest false e rest a h = h

  pub reject_if-ok :
      (bad : Bool) (e : E) (rest : Result E A) (a : A)
      → (reject_if bad e >> rest) ≡ ok a
      → (bad ≡ false) × (rest ≡ ok a)
  reject_if-ok true e rest a h = absurd (ground arith)
  reject_if-ok false e rest a h = (refl, h)

  pub bind-ok {μ} :
      {B : Type μ} (first : Result E B) (f : B → Result E A) (a : A)
      → (first >>= f) ≡ ok a
      → (b : B) × ((first ≡ ok b) × (f b ≡ ok a))
  bind-ok (ok b) f a h = (b, (refl, h))
  bind-ok (err e) f a h = absurd (ground arith)
