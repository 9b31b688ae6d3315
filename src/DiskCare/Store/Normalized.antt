-- ===== src/DiskCare/Store/Normalized.antt =====
-- agent/internal/diskcare/diskcare.go: what `normalize` makes of a stored list of releases.
use devopsellence.Base.{
  true, false, not, ◌&&◌, ◌||◌, ◌≡◌, refl, sym, ap, subst, ◌∙◌, some, Option-cases, List, [], ◌∷◌,
  ◌++◌, map, All, is_empty, Text, ◌==◌, trim, contains, is_distinct, Dict, lookup, insert, has_key,
  has_key-insert, keys, arith, Bool-cases, inl, inr,
}
use devopsellence.Base.TextLaws.{eq_iff, eq_refl, eq_sound, trim_idem}
use devopsellence.Base.SortLaws.{Ascending, sort_texts-Ascending, contains-sort}
use devopsellence.DiskCare.Store.{
  ReleaseRecord, key_of, release_key, merge_loop, merge_strings, normalized_record, merged_record,
  normalize_step, normalize_loop, normalize,
}

contains-merge_loop :
    (seen values : List Text) (v : Text)
    → contains (merge_loop seen values) v
      ≡ (contains (map trim values) v && (not (is_empty v) && not (contains seen v)))
unfolding merge_loop contains
contains-merge_loop seen [] v = refl
contains-merge_loop seen (x ∷ xs) v = ground (
  arith,
  contains-merge_loop seen xs v,
  contains-merge_loop (trim x ∷ seen) xs v,
  eq_iff (trim x) v,
)

merge_loop-is_distinct : (seen values : List Text) → is_distinct (merge_loop seen values) ≡ true
unfolding merge_loop is_distinct contains
merge_loop-is_distinct seen [] = refl
merge_loop-is_distinct seen (x ∷ xs) = ground (
  arith,
  merge_loop-is_distinct seen xs,
  merge_loop-is_distinct (trim x ∷ seen) xs,
  contains-merge_loop (trim x ∷ seen) xs (trim x),
  eq_refl (trim x),
)

pub merge_strings-Ascending : (a b : List Text) → Ascending (merge_strings a b)
unfolding merge_strings
merge_strings-Ascending a b = sort_texts-Ascending _ (merge_loop-is_distinct [] (a ++ b))

pub contains-merge_strings :
    (a b : List Text) (v : Text)
    → contains (merge_strings a b) v ≡ (contains (map trim (a ++ b)) v && not (is_empty v))
unfolding merge_strings contains
contains-merge_strings a b v =
    contains-sort (merge_loop [] (a ++ b)) v ∙ ground (arith, contains-merge_loop [] (a ++ b) v)

-- A release as it is stored: its names are trimmed and not empty, its images strictly ascending.
pub record IsNormal (r : ReleaseRecord) : Type 0 where
  pub environment_trimmed : trim r.environment ≡ r.environment
  pub environment_named : is_empty r.environment ≡ false
  pub revision_trimmed : trim r.revision ≡ r.revision
  pub revision_named : is_empty r.revision ≡ false
  pub images_ascending : Ascending r.images

abbrev IsEntry : Text × ReleaseRecord → Type 0
IsEntry (k, r) = (key_of r ≡ k) × IsNormal r

All-insert :
    (k : Text) (r : ReleaseRecord) (m : Dict ReleaseRecord)
    → IsEntry (k, r)
    → All IsEntry m
    → All IsEntry (insert k r m)
unfolding insert
All-insert k r [] e a = (e, tt)
All-insert k r ((j, v) ∷ m) e a = elim (Bool-cases (j == k)) [
  | inl h ↦ rw (h, insert) ((e.0 ∙ sym (eq_sound j k h), e.1), a.1)
  | inr h ↦ rw (h, insert) (a.0, All-insert k r m e a.1)
]

contains-keys : (m : Dict ReleaseRecord) (k : Text) → contains (keys m) k ≡ has_key k m
unfolding contains has_key
contains-keys [] k = refl
contains-keys ((j, v) ∷ m) k = ground (arith, contains-keys m k)

contains-keys-insert :
    (k : Text) (r : ReleaseRecord) (m : Dict ReleaseRecord) (j : Text)
    → contains (keys (insert k r m)) j ≡ (k == j || contains (keys m) j)
contains-keys-insert k r m j =
    ground (arith, contains-keys (insert k r m) j, contains-keys m j, has_key-insert k j r m)

is_distinct-keys-insert :
    (k : Text) (r : ReleaseRecord) (m : Dict ReleaseRecord)
    → is_distinct (keys m) ≡ true
    → is_distinct (keys (insert k r m)) ≡ true
unfolding insert is_distinct contains
is_distinct-keys-insert k r [] h = refl
is_distinct-keys-insert k r ((j, v) ∷ m) h = elim (Bool-cases (j == k)) [
  | inl e ↦ rw (e, insert) h
  | inr e ↦
      rw (e, insert)
        (ground (
          arith,
          is_distinct-keys-insert k r m,
          contains-keys-insert k r m j,
          eq_iff j k,
          eq_iff k j,
        ))
]

abbrev IsStore : Dict ReleaseRecord → Type 0
IsStore m = All IsEntry m × (is_distinct (keys m) ≡ true)

-- An entry of the key that is looked up.
lookup-IsEntry :
    (k : Text) (r : ReleaseRecord) (m : Dict ReleaseRecord)
    → All IsEntry m
    → lookup k m ≡ some r
    → IsEntry (k, r)
unfolding lookup
lookup-IsEntry k r [] a h = absurd (ground arith)
lookup-IsEntry k r ((j, v) ∷ m) a h = elim (Bool-cases (j == k)) [
  | inl e ↦
      let same : v ≡ r = ground arith in
      subst (λ x. IsEntry (k, x)) same (a.0.0 ∙ eq_sound j k e, a.0.1)
  | inr e ↦ lookup-IsEntry k r m a.1 (ground arith)
]

normalized_record-IsNormal :
    (r : ReleaseRecord)
    → is_empty (normalized_record r).environment ≡ false
    → is_empty (normalized_record r).revision ≡ false
    → IsNormal (normalized_record r)
unfolding normalized_record
normalized_record-IsNormal r e v = record {
  environment_trimmed = trim_idem r.environment;
  environment_named = e;
  revision_trimmed = trim_idem r.revision;
  revision_named = v;
  images_ascending = merge_strings-Ascending [] r.images;
}

merged_record-IsEntry :
    (k : Text) (n : ReleaseRecord) (m : Dict ReleaseRecord)
    → All IsEntry m
    → IsEntry (k, n)
    → IsEntry (k, merged_record (lookup k m) n)
unfolding merged_record release_key
merged_record-IsEntry k n m a e = elim (Option-cases (lookup k m)) [
  | inl h ↦ rw (h, merged_record) e
  | inr (old, h) ↦
      let before = lookup-IsEntry k old m a h in
      let normal = before.1 in
      rw (h, merged_record)
        (
          before.0,
          record {
            environment_trimmed = normal.environment_trimmed;
            environment_named = normal.environment_named;
            revision_trimmed = normal.revision_trimmed;
            revision_named = normal.revision_named;
            images_ascending = merge_strings-Ascending old.images n.images;
          },
        )
]

normalize_step-IsStore :
    (m : Dict ReleaseRecord) (r : ReleaseRecord) → IsStore m → IsStore (normalize_step m r)
unfolding normalize_step
normalize_step-IsStore m r s =
    let n = normalized_record r in
    let entry = merged_record (lookup (key_of n) m) n in
    elim (Bool-cases (is_empty n.environment || is_empty n.revision || is_empty n.images)) [
      | inl e ↦ rw (e, normalize_step) s
      | inr e ↦
          let normal = normalized_record-IsNormal r (ground arith) (ground arith) in
          rw (e, normalize_step)
            (
              All-insert (key_of n) entry m
                  (merged_record-IsEntry (key_of n) n m s.0 (refl, normal)) s.0,
              is_distinct-keys-insert (key_of n) entry m s.1,
            )
    ]

normalize_loop-IsStore :
    (m : Dict ReleaseRecord) (rs : List ReleaseRecord) → IsStore m → IsStore (normalize_loop m rs)
unfolding normalize_loop
normalize_loop-IsStore m [] s = s
normalize_loop-IsStore m (r ∷ rs) s =
    normalize_loop-IsStore (normalize_step m r) rs (normalize_step-IsStore m r s)

-- The values of a store are normal and have its keys.
values-IsStore :
    (m : Dict ReleaseRecord)
    → All IsEntry m
    → All IsNormal (map (λ e. e.1) m) × (map key_of (map (λ e. e.1) m) ≡ keys m)
values-IsStore [] a = (tt, refl)
values-IsStore ((k, r) ∷ m) a =
    let rest = values-IsStore m a.1 in ((a.0.1, rest.0), ground (arith, rest.1, a.0.0))

-- `normalize` returns releases of pairwise different keys, each with trimmed and non-empty names
-- and with its images in strictly ascending order.
pub normalize-IsNormal :
    (releases : List ReleaseRecord)
    → All IsNormal (normalize releases) × (is_distinct (map key_of (normalize releases)) ≡ true)
unfolding normalize is_distinct
normalize-IsNormal releases =
    let store = normalize_loop-IsStore [] releases (tt, refl) in
    let values = values-IsStore (normalize_loop [] releases) store.0 in
    (values.0, ap is_distinct (values.1) ∙ store.1)
