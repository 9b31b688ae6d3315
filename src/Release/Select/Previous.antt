-- ===== src/Release/Select/Previous.antt =====
-- deployment-core/pkg/deploycore/release/model.go: a rollback to the release before the current one.
use mathlib.Core.List.Perm
use devopsellence.Base.{
  Perm, ℕ, true, false, ◌≡◌, subst, refl, List, [], ◌∷◌, All, In, here, there, Text, ◌==◌, trim,
  is_empty, sort_by, Dict, ok, arith, Bool-cases, inl, inr, ◌⊎◌, Result-cases,
}
use devopsellence.Base.Filtering.{All-In, All-map, In-sort_by, In-sort_by_of}
use devopsellence.Base.TextLaws.{eq_sound, eq_iff, text_lt_asymm, text_lt_negtrans, text_lt_total}
use devopsellence.Base.SortLaws.{IsSorted, sort_by-IsSorted, sort_by-perm}
use devopsellence.Release.Types.{Release, Times}
use devopsellence.Release.Select.{
  created_at_by_id, newer, behind, first_named, previous_of, select_previous, rollback_selector,
  select_rollback_release,
}

module _ (found : Dict ℕ) where
  newer-asymm : (a b : Release) → newer found a b ≡ true → newer found b a ≡ false
  unfolding newer
  newer-asymm a b h = ground (
    arith,
    eq_iff a.id b.id,
    eq_iff b.id a.id,
    text_lt_asymm a.id b.id,
    text_lt_asymm b.id a.id,
    text_lt_asymm a.revision b.revision,
    text_lt_asymm b.revision a.revision,
  )

  newer-negtrans :
      (a b c : Release)
      → newer found b a ≡ false
      → newer found c b ≡ false
      → newer found c a ≡ false
  unfolding newer
  newer-negtrans a b c h k = ground (
    arith,
    eq_iff a.id b.id,
    eq_iff b.id a.id,
    eq_iff b.id c.id,
    eq_iff c.id b.id,
    eq_iff c.id a.id,
    text_lt_negtrans c.id b.id a.id,
    text_lt_negtrans c.revision b.revision a.revision,
    text_lt_total a.id b.id,
    text_lt_total b.id c.id,
  )

  sorted : List Release → List Release
  sorted = sort_by (newer found)

  sorted-IsSorted : (rs : List Release) → IsSorted (newer found) (sorted rs)
  unfolding sorted
  sorted-IsSorted = sort_by-IsSorted (newer found) newer-asymm newer-negtrans

  -- A named release is not behind the current one, or it is not ahead of the selected one.
  abbrev Between : Release → Release → Release → Type 0
  Between cur r s = is_empty s.id ≡ false → (newer found cur s ≡ false) ⊎ (newer found s r ≡ false)

  newer_irrefl : (a : Release) → newer found a a ≡ false
  newer_irrefl a = ground (arith, newer-asymm a a)

  first_named_head :
      (x : Release) (rs : List Release) (r : Release)
      → is_empty x.id ≡ false
      → first_named (x ∷ rs) ≡ ok r
      → x ≡ r
  unfolding first_named
  first_named_head x rs r e h = ground arith

  -- The first named release of a sorted list is not behind any other named one.
  first_named-newest :
      (rs : List Release) (r : Release)
      → IsSorted (newer found) rs
      → first_named rs ≡ ok r
      → (is_empty r.id ≡ false)
        × In r rs
        × All (λ s. is_empty s.id ≡ false → newer found s r ≡ false) rs
  unfolding first_named
  first_named-newest [] r o h = absurd (ground arith)
  first_named-newest (x ∷ rs) r o h = elim (Bool-cases (is_empty x.id)) [
    | inl e ↦
        let (named, i, a) = first_named-newest rs r o.1 (ground arith) in
        (named, there i, ((λ n. absurd (ground arith)), a))
    | inr e ↦
        subst
          (λ q.
            (is_empty q.id ≡ false)
            × In q (x ∷ rs)
            × All (λ s. is_empty s.id ≡ false → newer found s q ≡ false) (x ∷ rs))
          (first_named_head x rs r e h)
          (
            e,
            here refl,
            (
              (λ n. newer_irrefl x),
              All-map (λ y. newer found y x ≡ false)
                  (λ y. is_empty y.id ≡ false → newer found y x ≡ false) (λ y below n. below) rs
                  o.0,
            ),
          )
  ]

  -- The first named release, and the others.
  first_named-split :
      (rs : List Release) (r : Release)
      → first_named rs ≡ ok r
      → (rest : List Release) × Perm rs (r ∷ rest)
  unfolding first_named
  first_named-split [] r h = absurd (ground arith)
  first_named-split (x ∷ rs) r h = elim (Bool-cases (is_empty x.id)) [
    | inl e ↦
        let (rest, p) = first_named-split rs r (ground arith) in
        (x ∷ rest, Perm.trans (Perm.cons x p) (Perm.swap r x rest))
    | inr e ↦ (rs, subst (λ y. Perm (x ∷ rs) (y ∷ rs)) (first_named_head x rs r e h) Perm.rfl)
  ]

  -- What the choice amounts to in a sorted list.
  behind-chosen :
      (rs : List Release) (id : Text) (r : Release)
      → IsSorted (newer found) rs
      → previous_of id (behind id rs) ≡ ok r
      → (cur : Release) × In cur rs
        × (cur.id ≡ id)
        × In r rs
        × (newer found r cur ≡ false)
        × (is_empty r.id ≡ false)
        × All (Between cur r) rs
        × ((rest : List Release) × Perm rs (cur ∷ r ∷ rest))
  unfolding previous_of behind
  behind-chosen [] id r o h = absurd (ground arith)
  behind-chosen (x ∷ rs) id r o h = elim (Bool-cases (x.id == id)) [
    | inl e ↦
        let (named, i, a) = first_named-newest rs r o.1 (rw (e, behind, previous_of) at h) in
        (
          x,
          here refl,
          eq_sound x.id id e,
          there i,
          All-In (λ y. newer found y x ≡ false) i o.0,
          named,
          (
            (λ n. inl (newer_irrefl x)),
            All-map (λ y. is_empty y.id ≡ false → newer found y r ≡ false) (Between x r)
                (λ y newest n. inr (newest n)) rs a,
          ),
          let (rest, p) = first_named-split rs r (rw (e, behind, previous_of) at h) in
              (rest, Perm.cons x p),
        )
    | inr e ↦
        let (cur, i, same, j, below, named, a, (rest, p)) =
          behind-chosen rs id r o.1 (rw (e, behind, previous_of) at h) in
        (
          cur,
          there i,
          same,
          there j,
          below,
          named,
          ((λ n. inl (All-In (λ y. newer found y x ≡ false) i o.0)), a),
          (
            x ∷ rest,
            Perm.trans (Perm.cons x p)
                (Perm.trans (Perm.swap cur x (r ∷ rest)) (Perm.cons cur (Perm.swap r x rest))),
          ),
        )
  ]

-- The release `r` is the newest named one, apart from the current release, that is not newer than it,
-- in the order by creation time, then id, then revision.
pub record IsPredecessor (times : Times) (releases : List Release) (id : Text) (r : Release)
    : Type 0 where
  pub found : Dict ℕ
  pub times_found : created_at_by_id times [] releases ≡ ok found
  pub current : Release
  pub current_listed : In current releases
  pub current_named : current.id ≡ id
  pub rest : List Release
  pub apart : Perm releases (current ∷ r ∷ rest)
  pub listed : In r releases
  pub named : is_empty r.id ≡ false
  pub not_newer : newer found r current ≡ false
  pub nearest :
      (s : Release)
      → In s releases
      → is_empty s.id ≡ false
      → (newer found current s ≡ false) ⊎ (newer found s r ≡ false)

select_previous-IsPredecessor :
    (times : Times) (releases : List Release) (id : Text) (r : Release)
    → select_previous times releases id ≡ ok r
    → IsPredecessor times releases id r
unfolding select_previous sorted
select_previous-IsPredecessor times releases id r h = elim (Bool-cases (is_empty id)) [
  | inl e ↦ absurd (ground arith)
  | inr e ↦ elim (Result-cases (created_at_by_id times [] releases)) [
    | inr (x, failed) ↦ absurd (ground arith)
    | inl (found, ok_found) ↦
        let (cur, i, same, j, below, named, a, (rest, p)) =
          behind-chosen found (sorted found releases) id r (sorted-IsSorted found releases)
            (ground arith) in
        record {
          found = found;
          times_found = ok_found;
          current = cur;
          current_listed = In-sort_by (newer found) releases i;
          current_named = same;
          rest = rest;
          apart = Perm.trans (Perm.symm (sort_by-perm (newer found) releases)) p;
          listed = In-sort_by (newer found) releases j;
          named = named;
          not_newer = below;
          nearest = λ s m. All-In (Between found cur r) (In-sort_by_of (newer found) releases m) a;
        }
  ]
]

-- Without a selector, or with `previous`, the release that is selected is a predecessor of the
-- current one: both are in the list, at two places of it (so the current release is not selected
-- itself), every creation time parses, the selected one has an id and is not newer than the current
-- one, and every release of the list with an id is not older than the current one or is not newer
-- than the selected one.
pub select_rollback_release-IsPredecessor :
    (times : Times) (releases : List Release) (current selector : Text) (r : Release)
    → is_empty (rollback_selector selector) ≡ true
    → select_rollback_release times releases current selector ≡ ok r
    → IsPredecessor times releases (trim current) r
unfolding select_rollback_release
select_rollback_release-IsPredecessor times releases current selector r e h =
    select_previous-IsPredecessor times releases (trim current) r (rw e at h)
