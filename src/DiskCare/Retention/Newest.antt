-- ===== src/DiskCare/Retention/Newest.antt =====
-- agent/internal/diskcare/diskcare.go: which releases retainedReleaseKeys keeps.
use mathlib.Core.List.{append_assoc, perm_middle}
use mathlib.Core.List.Perm
use devopsellence.Base.{
  Perm, keep, ◌++◌, subst, ℕ, zero, suc, ◌≤◌, Bool, true, false, ◌≡◌, refl, ap, ◌∙◌, List, [], ◌∷◌,
  map, take, length, All, In, here, there, Text, ◌==◌, trim, contains, contains-append,
  contains-distinct, sort_by, arith, Bool-cases, inl, inr, ◌⊎◌,
}
use devopsellence.Base.TextLaws.{eq_refl, eq_iff, eq_sound}
use devopsellence.Base.Filtering.{All-In, In-All, In-sort_by, In-sort_by_of, In-keep, In-keep_of}
use devopsellence.Base.SortLaws.{IsSorted, sort_by-IsSorted, sort_by-perm}
use devopsellence.DiskCare.Store.{ReleaseRecord, key_of}
use devopsellence.DiskCare.Retention.{
  seen_later, of_environment, environments, newest_keys, newest_of_all, retained_release_keys,
}

-- An element of a sorted list is among the first ones, or behind that many.
module _ {ℓ} {A : Type ℓ} (less : A → A → Bool) where
  take_or_behind :
      (n : ℕ) (xs : List A) (x : A)
      → IsSorted less xs
      → In x xs
      → In x (take n xs) ⊎ ((length (take n xs) ≡ n) × All (λ y. less x y ≡ false) (take n xs))
  take_or_behind zero xs x s i = inr (refl, tt)
  take_or_behind (suc n) [] x s i = elim i [ ]
  take_or_behind (suc n) (y ∷ ys) x s (here e) = inl (here e)
  take_or_behind (suc n) (y ∷ ys) x s (there i) = elim (take_or_behind n ys x s.1 i) [
    | inl j ↦ inl (there j)
    | inr (l, a) ↦ inr (ap suc l, (All-In (λ z. less z y ≡ false) i s.0, a))
  ]

  In-take : (n : ℕ) (xs : List A) {x : A} → In x (take n xs) → In x xs
  In-take zero xs i = elim i [ ]
  In-take (suc n) [] i = elim i [ ]
  In-take (suc n) (y ∷ ys) (here e) = here e
  In-take (suc n) (y ∷ ys) (there i) = there (In-take n ys i)

-- A filter and the first ones of a list take nothing twice: the list has them, and a rest.
keep-split {ℓ} :
    {A : Type ℓ} (p : A → Bool) (xs : List A) → (rest : List A) × Perm xs (keep p xs ++ rest)
keep-split p [] = ([], Perm.rfl)
keep-split p (x ∷ xs) =
    let (rest, q) = keep-split p xs in
    elim (Bool-cases (p x)) [
      | inl e ↦ (rest, rw (e, keep) (Perm.cons x q))
      | inr e ↦ (
        x ∷ rest,
        rw (e, keep) (Perm.trans (Perm.cons x q) (Perm.symm (perm_middle (keep p xs) rest))),
      )
    ]

take-split {ℓ} : {A : Type ℓ} (n : ℕ) (xs : List A) → (rest : List A) × (xs ≡ take n xs ++ rest)
take-split zero xs = (xs, refl)
take-split (suc n) [] = ([], refl)
take-split (suc n) (x ∷ xs) = let (rest, e) = take-split n xs in (rest, ap (◌∷◌ x) e)

newest-split {ℓ} :
    {A : Type ℓ} (less : A → A → Bool) (p : A → Bool) (n : ℕ) (xs : List A)
    → (rest : List A) × Perm xs (take n (sort_by less (keep p xs)) ++ rest)
newest-split less p n xs =
    let (others, q) = keep-split p xs in
    let (later, e) = take-split n (sort_by less (keep p xs)) in
    (
      later ++ others,
      Perm.trans q (
          subst (λ l. Perm (keep p xs ++ others) l)
            (ap (λ l. l ++ others) e
              ∙ append_assoc (take n (sort_by less (keep p xs))) later others)
            (Perm.append_right others (Perm.symm (sort_by-perm less (keep p xs))))),
    )

In-map-contains :
    {A : Type 0} (f : A → Text) (xs : List A) (x : A) → In x xs → contains (map f xs) (f x) ≡ true
unfolding contains
In-map-contains f [] x i = elim i [ ]
In-map-contains f (y ∷ ys) x (here e) = ground (arith, eq_iff (f y) (f x), ap f e)
In-map-contains f (y ∷ ys) x (there i) = ground (arith, In-map-contains f ys x i)

contains-newest_of_all :
    (limit : ℕ) (releases : List ReleaseRecord) (es : List Text) (e k : Text)
    → contains es e ≡ true
    → contains (newest_keys limit releases e) k ≡ true
    → contains (newest_of_all limit releases es) k ≡ true
unfolding newest_of_all contains
contains-newest_of_all limit releases [] e k h m = absurd (ground arith)
contains-newest_of_all limit releases (x ∷ xs) e k h m =
    let both = contains-append (newest_keys limit releases x) (newest_of_all limit releases xs) k in
    elim (Bool-cases (x == e)) [
      | inl same ↦
          ground
            (arith, both, ap (λ y. contains (newest_keys limit releases y) k) (eq_sound x e same))
      | inr other ↦
          ground (arith, both, contains-newest_of_all limit releases xs e k (ground arith) m)
    ]

-- A retained release of the environment, seen no earlier than `r`.
pub record Outranks (keys : List Text) (releases : List ReleaseRecord) (r x : ReleaseRecord)
    : Type 0 where
  pub listed : In x releases
  pub same_environment : (trim x.environment == trim r.environment) ≡ true
  pub no_earlier : r.last_seen_at ≤ x.last_seen_at
  pub retained : contains keys (key_of x) ≡ true

module _ (releases current : List ReleaseRecord) (limit : ℕ) where
  abbrev retained : List Text
  retained = retained_release_keys releases current limit

  first_ones : Text → List ReleaseRecord
  first_ones env = take limit (sort_by seen_later (of_environment env releases))

  seen_later-IsSorted : (rs : List ReleaseRecord) → IsSorted seen_later (sort_by seen_later rs)
  unfolding seen_later
  seen_later-IsSorted =
      sort_by-IsSorted seen_later (λ a b h. ground arith) (λ a b c h k. ground arith)

  first_ones-retained :
      (r : ReleaseRecord) (x : ReleaseRecord)
      → In r releases
      → In x (first_ones (trim r.environment))
      → contains retained (key_of x) ≡ true
  unfolding first_ones retained_release_keys newest_keys environments contains
  first_ones-retained r x i j =
      let known : contains (environments releases) (trim r.environment) ≡ true =
        contains-distinct [] (map (λ r. trim r.environment) releases) (trim r.environment)
        ∙ ground
            (arith, In-map-contains (λ (r : ReleaseRecord). trim r.environment) releases r i) in
      ground (
        arith,
        contains-append (map key_of current) (newest_of_all limit releases (environments releases))
            (key_of x),
        contains-newest_of_all limit releases (environments releases) (trim r.environment)
            (key_of x) known (In-map-contains key_of _ x j),
      )

  -- A recorded release that is not retained is outranked: at as many places of the record as the limit
  -- says, each counted once, there are retained releases of its environment, each seen no earlier than
  -- it.
  pub retained_release_keys-newest :
      (r : ReleaseRecord)
      → In r releases
      → contains (retained_release_keys releases current limit) (key_of r) ≡ false
      → (newer : List ReleaseRecord) × (length newer ≡ limit)
        × ((others : List ReleaseRecord) × Perm releases (newer ++ others))
        × All (Outranks (retained_release_keys releases current limit) releases r) newer
  unfolding first_ones of_environment
  retained_release_keys-newest r i h =
      let env = trim r.environment in
      let sorted = sort_by seen_later (of_environment env releases) in
      elim (take_or_behind seen_later limit sorted r (seen_later-IsSorted _)
        (In-sort_by_of seen_later _ (In-keep_of _ releases i (eq_refl env)))) [
          | inl j ↦ absurd (ground (arith, first_ones-retained r r i j))
          | inr (l, a) ↦ (
            first_ones env,
            l,
            newest-split seen_later (λ x. trim x.environment == env) limit releases,
            In-All _ (first_ones env) (λ x j.
                let m = In-sort_by seen_later _ (In-take seen_later limit sorted j) in
                let (listed, same) = In-keep _ releases m in
                record {
                  listed = listed;
                  same_environment = same;
                  no_earlier = not_later r x (All-In (λ y. seen_later r y ≡ false) j a);
                  retained = first_ones-retained r x i j;
                }),
          )
        ]
    where
      not_later : (r x : ReleaseRecord) → seen_later r x ≡ false → r.last_seen_at ≤ x.last_seen_at
      not_later r x h = unfold seen_later in ground arith
