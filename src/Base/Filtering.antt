-- ===== src/Base/Filtering.antt =====
-- Properties of all elements, membership, and what a filtering loop finds: nothing, or exactly one element.
use mathlib.Core.Path.{◌≡◌, refl, sym, ap, subst, ◌∙◌}
use mathlib.Core.Bool.{Bool, true, false}
use mathlib.Core.Logic.{inl, inr}
use mathlib.Core.List.{List, [], ◌∷◌, ◌++◌}
use native.Mathlib.Omega.{arith}
use devopsellence.Base.Tests.{Bool-cases}
use devopsellence.Base.Sorting.{insert_by, sort_by}
use devopsellence.Base.Lists.{keep, keep-append, All, In, here, there}

-- The list is split by its only element that passes the test.
pub record OnlyOne {ℓ} {A : Type ℓ} (p : A → Bool) (r : A) (rs : List A) : Type ℓ where
  pub before : List A
  pub after : List A
  pub split : rs ≡ before ++ r ∷ after
  pub passes : p r ≡ true
  pub none_before : All (λ s. p s ≡ false) before
  pub none_after : All (λ s. p s ≡ false) after

module _ {ℓ} {A : Type ℓ} (p : A → Bool) where
  keep-nil : (rs : List A) → keep p rs ≡ [] → All (λ s. p s ≡ false) rs
  keep-nil [] h = tt
  keep-nil (r ∷ rs) h = elim (Bool-cases (p r)) [
    | inl e ↦ absurd (ground arith)
    | inr e ↦ (e, keep-nil rs (ground arith))
  ]

  keep-All-false : (rs : List A) → All (λ s. p s ≡ false) rs → keep p rs ≡ []
  keep-All-false [] a = refl
  keep-All-false (r ∷ rs) a = ground (arith, keep-All-false rs a.1)

  OnlyOne-cons : (r x : A) (rs : List A) → p x ≡ false → OnlyOne p r rs → OnlyOne p r (x ∷ rs)
  OnlyOne-cons r x rs e o = record {
    before = x ∷ o.before;
    after = o.after;
    split = ap (◌∷◌ x) o.split;
    passes = o.passes;
    none_before = (e, o.none_before);
    none_after = o.none_after;
  }

  pub keep-OnlyOne : (r : A) (rs : List A) → keep p rs ≡ r ∷ [] → OnlyOne p r rs
  keep-OnlyOne r [] h = absurd (ground arith)
  keep-OnlyOne r (x ∷ rs) h = elim (Bool-cases (p x)) [
    | inl e ↦
        let same : x ≡ r = ground arith in
        record {
          before = [];
          after = rs;
          split = ap (λ y. y ∷ rs) same;
          passes = ap p (sym same) ∙ e;
          none_before = tt;
          none_after = keep-nil rs (ground arith);
        }
    | inr e ↦ OnlyOne-cons r x rs e (keep-OnlyOne r rs (ground arith))
  ]

  pub OnlyOne-keep : (r : A) (rs : List A) → OnlyOne p r rs → keep p rs ≡ r ∷ []
  OnlyOne-keep r rs o =
      ap (keep p) o.split
      ∙ (keep-append p o.before (r ∷ o.after)
          ∙ ground (
            arith,
            o.passes,
            keep-All-false o.before o.none_before,
            keep-All-false o.after o.none_after,
          ))

-- A property of all elements, at one of them.
pub All-In {ℓ κ} : {A : Type ℓ} (P : A → Type κ) {x : A} {xs : List A} → In x xs → All P xs → P x
All-In P (here e) a = subst P (sym e) a.0
All-In P (there i) a = All-In P i a.1

pub All-map {ℓ κ μ} :
    {A : Type ℓ} (P : A → Type κ) (Q : A → Type μ)
    → ((x : A) → P x → Q x)
    → (xs : List A) → All P xs
    → All Q xs
All-map P Q f [] a = tt
All-map P Q f (x ∷ xs) a = (f x a.0, All-map P Q f xs a.1)

pub In-All {ℓ κ} :
    {A : Type ℓ} (P : A → Type κ) (xs : List A) → ((x : A) → In x xs → P x) → All P xs
In-All P [] f = tt
In-All P (x ∷ xs) f = (f x (here refl), In-All P xs (λ y i. f y (there i)))

pub In-append_left {ℓ} :
    {A : Type ℓ} {x : A} {xs : List A} (ys : List A) → In x xs → In x (xs ++ ys)
In-append_left ys (here e) = here e
In-append_left ys (there i) = there (In-append_left ys i)

pub In-append_right {ℓ} :
    {A : Type ℓ} {x : A} (xs : List A) {ys : List A} → In x ys → In x (xs ++ ys)
In-append_right [] i = i
In-append_right (y ∷ xs) i = there (In-append_right xs i)

-- What stands in the sorted list stands in the list.
pub In-insert_by {ℓ} :
    {A : Type ℓ} (less : A → A → Bool) (x : A) (xs : List A) {y : A}
    → In y (insert_by less x xs)
    → In y (x ∷ xs)
unfolding insert_by
In-insert_by less x [] i = i
In-insert_by less x (z ∷ zs) i = elim (Bool-cases (less z x)) [
  | inl e ↦ elim (rw (e, insert_by) at i) [
    | here q ↦ there (here q)
    | there j ↦ elim (In-insert_by less x zs j) [ here q ↦ here q | there k ↦ there (there k) ]
  ]
  | inr e ↦ (rw (e, insert_by) at i)
]

pub In-sort_by {ℓ} :
    {A : Type ℓ} (less : A → A → Bool) (xs : List A) {y : A} → In y (sort_by less xs) → In y xs
unfolding sort_by
In-sort_by less [] i = i
In-sort_by less (x ∷ xs) i = elim (In-insert_by less x (sort_by less xs) i) [
  | here q ↦ here q
  | there j ↦ there (In-sort_by less xs j)
]

pub In-insert_by_of {ℓ} :
    {A : Type ℓ} (less : A → A → Bool) (x : A) (xs : List A) {y : A}
    → In y (x ∷ xs)
    → In y (insert_by less x xs)
unfolding insert_by
In-insert_by_of less x [] i = i
In-insert_by_of less x (z ∷ zs) i = elim (Bool-cases (less z x)) [
  | inl e ↦
      rw (e, insert_by)
        (elim i [
          | here q ↦ there (In-insert_by_of less x zs (here q))
          | there (here q) ↦ here q
          | there (there j) ↦ there (In-insert_by_of less x zs (there j))
        ])
  | inr e ↦ rw (e, insert_by) i
]

-- What stands in the list stands in the sorted list.
pub In-sort_by_of {ℓ} :
    {A : Type ℓ} (less : A → A → Bool) (xs : List A) {y : A} → In y xs → In y (sort_by less xs)
unfolding sort_by
In-sort_by_of less [] i = i
In-sort_by_of less (x ∷ xs) (here e) = In-insert_by_of less x (sort_by less xs) (here e)
In-sort_by_of less (x ∷ xs) (there i) =
    In-insert_by_of less x (sort_by less xs) (there (In-sort_by_of less xs i))

pub In-keep {ℓ} :
    {A : Type ℓ} (p : A → Bool) (xs : List A) {x : A} → In x (keep p xs) → In x xs × (p x ≡ true)
In-keep p [] i = elim i [ ]
In-keep p (y ∷ ys) i = elim (Bool-cases (p y)) [
  | inr e ↦ let (j, t) = In-keep p ys (rw (e, keep) at i) in (there j, t)
  | inl e ↦ elim (rw (e, keep) at i) [
    | here q ↦ (here q, ap p q ∙ e)
    | there j ↦ let (k, t) = In-keep p ys j in (there k, t)
  ]
]

pub In-keep_of {ℓ} :
    {A : Type ℓ} (p : A → Bool) (xs : List A) {x : A} → In x xs → p x ≡ true → In x (keep p xs)
In-keep_of p [] i h = elim i [ ]
In-keep_of p (y ∷ ys) (here e) h = rw (sym (ap p e) ∙ h, keep) (here e)
In-keep_of p (y ∷ ys) (there i) h = elim (Bool-cases (p y)) [
  | inl e ↦ rw (e, keep) (there (In-keep_of p ys i h))
  | inr e ↦ rw (e, keep) (In-keep_of p ys i h)
]
