-- ===== src/Base/SortLaws.antt =====
-- Laws of the sort: it keeps the values, it is ordered, and on distinct texts strictly.
use mathlib.Core.Path.{◌≡◌, refl, ap₂, ◌∙◌}
use mathlib.Core.Bool.{Bool, true, false, not, ◌&&◌, ◌||◌}
use mathlib.Core.Logic.{inl, inr}
use mathlib.Core.List.{List, [], ◌∷◌, ◌++◌, map, Perm}
use mathlib.Core.List.Perm
use native.Mathlib.Omega.{arith}
use devopsellence.Base.Tests.{Bool-cases}
use devopsellence.Base.Lists.{All}
use devopsellence.Base.Texts.{Text, ◌==◌, text_lt}
use devopsellence.Base.Sorting.{insert_by, sort_by, sort_texts}
use devopsellence.Base.TextLaws.{
  eq_refl, eq_iff, text_lt_irrefl, text_lt_asymm, text_lt_trans, text_lt_total,
}
use devopsellence.Base.Sets.{contains, contains-all, contains-append, is_distinct}

module _ {ℓ} {A : Type ℓ} (less : A → A → Bool) where
  -- No element is less than one that stands before it.
  abbrev pub IsSorted : List A → Type ℓ
  IsSorted [] = Unit
  IsSorted (x ∷ xs) = All (λ y. less y x ≡ false) xs × IsSorted xs

  insert_by-perm : (x : A) (xs : List A) → Perm (insert_by less x xs) (x ∷ xs)
  unfolding insert_by
  insert_by-perm x [] = Perm.rfl
  insert_by-perm x (y ∷ ys) = elim (Bool-cases (less y x)) [
    | inl e ↦ rw (e, insert_by) (Perm.trans (Perm.cons y (insert_by-perm x ys)) (Perm.swap x y ys))
    | inr e ↦ rw (e, insert_by) Perm.rfl
  ]

  pub sort_by-perm : (xs : List A) → Perm (sort_by less xs) xs
  unfolding sort_by
  sort_by-perm [] = Perm.rfl
  sort_by-perm (x ∷ xs) =
      Perm.trans (insert_by-perm x (sort_by less xs)) (Perm.cons x (sort_by-perm xs))

  pub insert_by-All {κ} :
      (P : A → Type κ) (x : A) (xs : List A) → P x → All P xs → All P (insert_by less x xs)
  unfolding insert_by
  insert_by-All P x [] h a = (h, tt)
  insert_by-All P x (y ∷ ys) h a = elim (Bool-cases (less y x)) [
    | inl e ↦ rw (e, insert_by) (a.0, insert_by-All P x ys h a.1)
    | inr e ↦ rw (e, insert_by) (h, a)
  ]

  pub sort_by-All {κ} : (P : A → Type κ) (xs : List A) → All P xs → All P (sort_by less xs)
  unfolding sort_by
  sort_by-All P [] a = a
  sort_by-All P (x ∷ xs) a = insert_by-All P x (sort_by less xs) a.0 (sort_by-All P xs a.1)

  module _ (asymm : (x y : A) → less x y ≡ true → less y x ≡ false)
      (negtrans : (x y z : A) → less y x ≡ false → less z y ≡ false → less z x ≡ false) where
    All-below :
        (x y : A) (ys : List A)
        → less y x ≡ false
        → All (λ z. less z y ≡ false) ys
        → All (λ z. less z x ≡ false) ys
    All-below x y [] h a = tt
    All-below x y (z ∷ zs) h a = (negtrans x y z h a.0, All-below x y zs h a.1)

    insert_by-IsSorted : (x : A) (xs : List A) → IsSorted xs → IsSorted (insert_by less x xs)
    unfolding insert_by
    insert_by-IsSorted x [] s = (tt, tt)
    insert_by-IsSorted x (y ∷ ys) s = elim (Bool-cases (less y x)) [
      | inl e ↦
          rw (e, insert_by)
            (
              insert_by-All (λ z. less z y ≡ false) x ys (asymm y x e) s.0,
              insert_by-IsSorted x ys s.1,
            )
      | inr e ↦ rw (e, insert_by) ((e, All-below x y ys e s.0), s)
    ]

    pub sort_by-IsSorted : (xs : List A) → IsSorted (sort_by less xs)
    unfolding sort_by
    sort_by-IsSorted [] = tt
    sort_by-IsSorted (x ∷ xs) = insert_by-IsSorted x (sort_by less xs) (sort_by-IsSorted xs)

pub contains-sort : (xs : List Text) (v : Text) → contains (sort_texts xs) v ≡ contains xs v
unfolding sort_texts sort_by contains
contains-sort [] v = refl
contains-sort (x ∷ xs) v = contains-insert (sort_texts xs) ∙ (ground (arith, contains-sort xs v))
  where
    contains-insert :
        (ys : List Text) → contains (insert_by text_lt x ys) v ≡ (x == v || contains ys v)
    contains-insert [] = refl
    contains-insert (y ∷ ys) = ground (arith, contains-insert ys)

-- Each text is less than every text behind it.
abbrev pub Ascending : List Text → Type 0
Ascending [] = Unit
Ascending (x ∷ xs) = All (λ y. text_lt x y ≡ true) xs × Ascending xs

All-above :
    (x y : Text) (ys : List Text)
    → text_lt x y ≡ true
    → All (λ z. text_lt y z ≡ true) ys
    → All (λ z. text_lt x z ≡ true) ys
All-above x y [] h a = tt
All-above x y (z ∷ zs) h a = (text_lt_trans x y z h a.0, All-above x y zs h a.1)

above_of_ne : (x y : Text) → text_lt y x ≡ false → (y == x) ≡ false → text_lt x y ≡ true
above_of_ne x y h k = ground (arith, text_lt_total x y, eq_iff y x)

insert-Ascending :
    (x : Text) (ys : List Text)
    → contains ys x ≡ false
    → Ascending ys
    → Ascending (insert_by text_lt x ys)
unfolding insert_by contains
insert-Ascending x [] h a = (tt, tt)
insert-Ascending x (y ∷ ys) h a = elim (Bool-cases (text_lt y x)) [
  | inl e ↦
      rw (e, insert_by)
        (
          insert_by-All text_lt (λ z. text_lt y z ≡ true) x ys e a.0,
          insert-Ascending x ys (ground arith) a.1,
        )
  | inr e ↦
      let below = above_of_ne x y e (ground arith) in
      rw (e, insert_by) ((below, All-above x y ys below a.0), a)
]

-- Distinct texts sort into strictly ascending order.
pub sort_texts-Ascending : (xs : List Text) → is_distinct xs ≡ true → Ascending (sort_texts xs)
unfolding sort_texts sort_by is_distinct
sort_texts-Ascending [] h = tt
sort_texts-Ascending (x ∷ xs) h =
    insert-Ascending x (sort_texts xs) (ground (arith, contains-sort xs x))
      (sort_texts-Ascending xs (ground arith))

Ascending-fresh :
    (x : Text) (xs : List Text) → All (λ y. text_lt x y ≡ true) xs → contains xs x ≡ false
unfolding contains
Ascending-fresh x [] a = refl
Ascending-fresh x (y ∷ ys) a =
    ground (arith, Ascending-fresh x ys a.1, a.0, text_lt_irrefl x, eq_iff y x)

below_of_contains :
    (x y : Text) (xs : List Text)
    → All (λ z. text_lt x z ≡ true) xs
    → contains xs y ≡ true
    → text_lt x y ≡ true
below_of_contains x y xs = contains-all (λ z. text_lt x z ≡ true) xs y

heads_eq :
    (x y : Text) (xs ys : List Text)
    → Ascending (x ∷ xs)
    → Ascending (y ∷ ys)
    → ((v : Text) → contains (x ∷ xs) v ≡ contains (y ∷ ys) v)
    → x ≡ y
unfolding contains
heads_eq x y xs ys a b h = ground (
  arith,
  h x,
  h y,
  eq_iff x y,
  eq_iff y x,
  eq_refl x,
  eq_refl y,
  below_of_contains x y xs a.0,
  below_of_contains y x ys b.0,
  text_lt_asymm x y,
)

-- An ascending list is known by what it holds.
pub Ascending-ext :
    (xs ys : List Text)
    → Ascending xs
    → Ascending ys
    → ((v : Text) → contains xs v ≡ contains ys v)
    → xs ≡ ys
unfolding contains
Ascending-ext [] [] a b h = refl
Ascending-ext [] (y ∷ ys) a b h = ground (arith, h y, eq_refl y)
Ascending-ext (x ∷ xs) [] a b h = ground (arith, h x, eq_refl x)
Ascending-ext (x ∷ xs) (y ∷ ys) a b h =
    let e = heads_eq x y xs ys a b h in ap₂ ◌∷◌ e (Ascending-ext xs ys a.1 b.1 λ v. tails v e)
  where
    tails : (v : Text) → x ≡ y → contains xs v ≡ contains ys v
    tails v e =
        ground
          (arith, h v, eq_iff x v, eq_iff y v, Ascending-fresh x xs a.0, Ascending-fresh y ys b.0)

pub is_distinct-snoc :
    (xs : List Text) (v : Text)
    → is_distinct (xs ++ v ∷ []) ≡ (is_distinct xs && not (contains xs v))
unfolding is_distinct contains
is_distinct-snoc [] v = refl
is_distinct-snoc (x ∷ xs) v =
    ground (arith, is_distinct-snoc xs v, contains-append xs (v ∷ []) x, eq_iff x v, eq_iff v x)

module _ {ℓ} {A : Type ℓ} (less : A → A → Bool) (f : A → Text) where
  contains-map-insert_by :
      (x : A) (xs : List A) (v : Text)
      → contains (map f (insert_by less x xs)) v ≡ (f x == v || contains (map f xs) v)
  unfolding contains insert_by
  contains-map-insert_by x [] v = refl
  contains-map-insert_by x (y ∷ ys) v = elim (Bool-cases (less y x)) [
    | inl e ↦ rw (e, insert_by) (ground (arith, contains-map-insert_by x ys v))
    | inr e ↦ rw (e, insert_by) refl
  ]

  pub contains-map-sort_by :
      (xs : List A) (v : Text) → contains (map f (sort_by less xs)) v ≡ contains (map f xs) v
  unfolding contains sort_by
  contains-map-sort_by [] v = refl
  contains-map-sort_by (x ∷ xs) v =
      ground (arith, contains-map-insert_by x (sort_by less xs) v, contains-map-sort_by xs v)

  is_distinct-map-insert_by :
      (x : A) (xs : List A)
      → is_distinct (map f (insert_by less x xs))
        ≡ (not (contains (map f xs) (f x)) && is_distinct (map f xs))
  unfolding contains is_distinct insert_by
  is_distinct-map-insert_by x [] = refl
  is_distinct-map-insert_by x (y ∷ ys) = elim (Bool-cases (less y x)) [
    | inl e ↦
        rw (e, insert_by)
          (ground (
            arith,
            is_distinct-map-insert_by x ys,
            contains-map-insert_by x ys (f y),
            eq_iff (f x) (f y),
            eq_iff (f y) (f x),
          ))
    | inr e ↦ rw (e, insert_by) refl
  ]

  pub is_distinct-map-sort_by :
      (xs : List A) → is_distinct (map f (sort_by less xs)) ≡ is_distinct (map f xs)
  unfolding is_distinct sort_by
  is_distinct-map-sort_by [] = refl
  is_distinct-map-sort_by (x ∷ xs) = ground (
    arith,
    is_distinct-map-insert_by x (sort_by less xs),
    is_distinct-map-sort_by xs,
    contains-map-sort_by xs (f x),
  )
