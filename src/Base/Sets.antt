-- ===== src/Base/Sets.antt =====
-- Go's `map[string]bool` and `map[string]struct{}` as sets: lists of their keys.
use mathlib.Core.Path.{◌≡◌, refl}
use mathlib.Core.Bool.{Bool, true, false, not, ◌&&◌, ◌||◌}
use mathlib.Core.Logic.{inl, inr}
use mathlib.Core.List.{List, [], ◌∷◌, ◌++◌}
use native.Mathlib.Omega.{arith}
use devopsellence.Base.Tests.{if◌then◌else◌, Bool-cases}
use devopsellence.Base.Lists.{keep, All, In, here, there}
use devopsellence.Base.Texts.{Text, ◌==◌}
use devopsellence.Base.TextLaws.{eq_refl, eq_sound, eq_iff}

-- `_, ok := set[value]`, and a search of a slice.
unfoldable pub contains : List Text → Text → Bool
contains [] v = false
contains (x ∷ xs) v = x == v || contains xs v

-- The values that are not in `seen`, each once, in order of first occurrence:
-- `if seen[v] { continue }; seen[v] = true; out = append(out, v)`.
unfoldable pub distinct : List Text → List Text → List Text
unfolding contains
distinct seen [] = []
distinct seen (v ∷ vs) =
    let old = distinct seen vs in
    let fresh = v ∷ distinct (v ∷ seen) vs in if contains seen v then old else fresh

-- No value stands twice.
unfoldable pub is_distinct : List Text → Bool
unfolding contains
is_distinct [] = true
is_distinct (v ∷ vs) = not (contains vs v) && is_distinct vs

-- The values of `xs` that are not in `ys`.
abbrev pub difference : List Text → List Text → List Text
difference xs ys = keep (λ v. not (contains ys v)) xs

pub contains-append :
    (xs ys : List Text) (v : Text) → contains (xs ++ ys) v ≡ (contains xs v || contains ys v)
unfolding contains
contains-append [] ys v = refl
contains-append (x ∷ xs) ys v = ground (arith, contains-append xs ys v)

pub contains-distinct :
    (seen vs : List Text) (v : Text)
    → contains (distinct seen vs) v ≡ (contains vs v && not (contains seen v))
unfolding contains distinct
contains-distinct seen [] v = refl
contains-distinct seen (x ∷ vs) v =
    ground (arith, contains-distinct seen vs v, contains-distinct (x ∷ seen) vs v, eq_iff x v)

pub distinct-is_distinct : (seen vs : List Text) → is_distinct (distinct seen vs) ≡ true
unfolding is_distinct distinct
distinct-is_distinct seen [] = refl
distinct-is_distinct seen (x ∷ vs) = ground (
  arith,
  distinct-is_distinct seen vs,
  distinct-is_distinct (x ∷ seen) vs,
  contains-distinct (x ∷ seen) vs x,
  contains_head x seen,
)
  where
    contains_head : (x : Text) (seen : List Text) → contains (x ∷ seen) x ≡ true
    contains_head x seen = ground (arith, eq_refl x)

pub contains-keep :
    (p : Text → Bool) (xs : List Text) (v : Text) → contains (keep p xs) v ≡ (contains xs v && p v)
unfolding contains
contains-keep p [] v = refl
contains-keep p (x ∷ xs) v = ground (arith, contains-keep p xs v, eq_iff x v)

pub contains-all {κ} :
    (P : Text → Type κ) (xs : List Text) (v : Text) → All P xs → contains xs v ≡ true → P v
unfolding contains
contains-all P [] v a h = cc
contains-all P (x ∷ xs) v a h = elim (Bool-cases (x == v)) [
  | inl e ↦ rw (eq_sound x v e) at a.0
  | inr e ↦ contains-all P xs v a.1 (ground arith)
]

pub contains→In : (xs : List Text) (v : Text) → contains xs v ≡ true → In v xs
unfolding contains
contains→In [] v h = cc
contains→In (x ∷ xs) v h = elim (Bool-cases (x == v)) [
  | inl e ↦ here (ground (arith, eq_iff x v))
  | inr e ↦ there (contains→In xs v (ground arith))
]
