-- ===== src/Base/TextLaws.antt =====
-- Laws of the texts: equality, the order, and trimming.
use Prim.Native.Nat.{ℕ}
use mathlib.Core.Path.{◌≡◌, refl, ap, ◌∙◌}
use mathlib.Core.Logic.{◌↔◌, ◌⊎◌, inl, inr}
use mathlib.Core.Bool.{Bool, true, false, not, ◌&&◌}
use mathlib.Core.List.{[], ◌∷◌}
use native.Mathlib.Omega.{arith}
use devopsellence.Base.Tests.{Bool-cases}
use devopsellence.Base.Lists.{is_empty, All}
use devopsellence.Base.Texts.{Text, ◌==◌, text_lt, is_space, trim_left, trim_right, trim_by, trim}

pub eq_refl : (s : Text) → (s == s) ≡ true
unfolding ◌==◌
eq_refl [] = refl
eq_refl (c ∷ s) = ground (arith, eq_refl s)

pub eq_sound : (s t : Text) → (s == t) ≡ true → s ≡ t
unfolding ◌==◌
eq_sound [] [] h = refl
eq_sound [] (d ∷ t) h = cc
eq_sound (c ∷ s) [] h = cc
eq_sound (c ∷ s) (d ∷ t) h = ground (arith, eq_sound s t)

pub eq_iff : (s t : Text) → ((s == t) ≡ true) ↔ (s ≡ t)
eq_iff s t = (eq_sound s t, λ e. rw e (eq_refl t))

pub eq_sym : (s t : Text) → (s == t) ≡ (t == s)
eq_sym s t = ground (arith, eq_iff s t, eq_iff t s)

pub text_lt_irrefl : (s : Text) → text_lt s s ≡ false
unfolding text_lt
text_lt_irrefl [] = refl
text_lt_irrefl (c ∷ s) = ground (arith, text_lt_irrefl s)

pub text_lt_trans : (s t u : Text) → text_lt s t ≡ true → text_lt t u ≡ true → text_lt s u ≡ true
unfolding text_lt
text_lt_trans [] [] u h k = cc
text_lt_trans [] (d ∷ t) [] h k = cc
text_lt_trans [] (d ∷ t) (e ∷ u) h k = refl
text_lt_trans (c ∷ s) [] u h k = cc
text_lt_trans (c ∷ s) (d ∷ t) [] h k = cc
text_lt_trans (c ∷ s) (d ∷ t) (e ∷ u) h k = ground (arith, text_lt_trans s t u)

pub text_lt_asymm : (s t : Text) → text_lt s t ≡ true → text_lt t s ≡ false
text_lt_asymm s t h = ground (arith, text_lt_irrefl s, text_lt_trans s t s h)

-- Any two texts are ordered, or equal.
pub text_lt_total : (s t : Text) → (text_lt s t ≡ true) ⊎ ((text_lt t s ≡ true) ⊎ (s ≡ t))
unfolding text_lt
text_lt_total [] [] = inr (inr refl)
text_lt_total [] (d ∷ t) = inl refl
text_lt_total (c ∷ s) [] = inr (inl refl)
text_lt_total (c ∷ s) (d ∷ t) = ground (arith, text_lt_total s t)

-- Not being above is transitive.
pub text_lt_negtrans :
    (s t u : Text) → text_lt t s ≡ false → text_lt u t ≡ false → text_lt u s ≡ false
text_lt_negtrans s t u h k = elim (text_lt_total t u) [
  | inl lt ↦ elim (text_lt_total s t) [
    | inl lt' ↦ text_lt_asymm s u (text_lt_trans s t u lt' lt)
    | inr (inl gt) ↦ cc
    | inr (inr e) ↦ rw e (text_lt_asymm t u lt)
  ]
  | inr (inl gt) ↦ cc
  | inr (inr e) ↦ rw (← e) h
]

module _ (p : ℕ → Bool) where
  -- The text does not start with a code point to trim.
  abbrev starts_clean : Text → Bool
  starts_clean [] = true
  starts_clean (c ∷ s) = not (p c)

  trim_left-clean : (s : Text) → starts_clean (trim_left p s) ≡ true
  unfolding trim_left
  trim_left-clean [] = refl
  trim_left-clean (c ∷ s) = ground (arith, trim_left-clean s)

  trim_right_idem : (s : Text) → trim_right p (trim_right p s) ≡ trim_right p s
  unfolding trim_right
  trim_right_idem [] = refl
  trim_right_idem (c ∷ s) = ground (arith, trim_right_idem s)

  trim_left-fixes : (s : Text) → starts_clean s ≡ true → trim_left p s ≡ s
  unfolding trim_left
  trim_left-fixes [] h = refl
  trim_left-fixes (c ∷ s) h = ground arith

  trim_right-clean : (s : Text) → starts_clean s ≡ true → starts_clean (trim_right p s) ≡ true
  unfolding trim_right
  trim_right-clean [] h = refl
  trim_right-clean (c ∷ s) h = ground arith

  pub trim_by_idem : (s : Text) → trim_by p (trim_by p s) ≡ trim_by p s
  unfolding trim_by
  trim_by_idem s =
      ap (trim_right p) (trim_left-fixes _ (trim_right-clean (trim_left p s) (trim_left-clean s)))
      ∙ trim_right_idem (trim_left p s)

  trim_left-All {κ} : (P : ℕ → Type κ) (s : Text) → All P s → All P (trim_left p s)
  unfolding trim_left
  trim_left-All P [] h = h
  trim_left-All P (c ∷ s) h = elim (Bool-cases (p c)) [
    | inl e ↦ rw (e, trim_left) (trim_left-All P s h.1)
    | inr e ↦ rw (e, trim_left) h
  ]

  trim_right-All {κ} : (P : ℕ → Type κ) (s : Text) → All P s → All P (trim_right p s)
  unfolding trim_right
  trim_right-All P [] h = h
  trim_right-All P (c ∷ s) h = elim (Bool-cases (p c && is_empty (trim_right p s))) [
    | inl e ↦ rw (e, trim_right) tt
    | inr e ↦ rw (e, trim_right) (h.0, trim_right-All P s h.1)
  ]

  pub trim_by-All {κ} : (P : ℕ → Type κ) (s : Text) → All P s → All P (trim_by p s)
  unfolding trim_by
  trim_by-All P s h = trim_right-All P (trim_left p s) (trim_left-All P s h)

pub trim_idem : (s : Text) → trim (trim s) ≡ trim s
unfolding trim
trim_idem s = trim_by_idem is_space s
