-- ===== src/DiskCare/Store/Dropped.antt =====
-- agent/internal/diskcare/diskcare.go: what dropRemovedImages leaves recorded.
use devopsellence.Base.{
  Bool, true, false, not, ◌&&◌, ◌||◌, ◌≡◌, refl, ◌∙◌, List, [], ◌∷◌, ◌++◌, any, keep, is_empty,
  Text, ◌==◌, contains, contains-keep, arith, Bool-cases, inl, inr,
}
use devopsellence.Base.TextLaws.{eq_iff}
use devopsellence.DiskCare.Store.{ReleaseRecord, key_of, drop_from, drop_loop, drop_removed_images}

-- A release of the key holds the image.
unfoldable pub is_recorded : List ReleaseRecord → (key image : Text) → Bool
is_recorded releases key image = any (λ r. key_of r == key && contains r.images image) releases

is_recorded-append :
    (xs ys : List ReleaseRecord) (k i : Text)
    → is_recorded (xs ++ ys) k i ≡ (is_recorded xs k i || is_recorded ys k i)
unfolding is_recorded
is_recorded-append [] ys k i = refl
is_recorded-append (x ∷ xs) ys k i = ground (arith, is_recorded-append xs ys k i)

contains-empty : (xs : List Text) (i : Text) → is_empty xs ≡ true → contains xs i ≡ false
unfolding contains
contains-empty [] i h = refl
contains-empty (x ∷ xs) i h = cc

is_recorded-drop_from :
    (removed : List Text) (r : ReleaseRecord) (k i : Text)
    → is_recorded (drop_from removed r) k i
      ≡ (key_of r == k && (contains r.images i && not (contains removed i)))
unfolding is_recorded drop_from
is_recorded-drop_from removed r k i =
    let left = keep (λ image. not (contains removed image)) r.images in
    let kept = contains-keep (λ image. not (contains removed image)) r.images i in
    ground (arith, kept, contains-empty left i)

is_recorded-drop_loop :
    (removed retained : List Text) (rs : List ReleaseRecord) (k i : Text)
    → is_recorded (drop_loop removed retained rs) k i
      ≡ (is_recorded rs k i && (contains retained k || not (contains removed i)))
unfolding is_recorded drop_loop
is_recorded-drop_loop removed retained [] k i = refl
is_recorded-drop_loop removed retained (r ∷ rs) k i =
    elim (Bool-cases (contains retained (key_of r))) [
      | inl e ↦
          rw (e, drop_loop)
            (ground (arith, is_recorded-drop_loop removed retained rs k i, eq_iff (key_of r) k))
      | inr e ↦
          rw (e, drop_loop)
            (is_recorded-append (drop_from removed r) (drop_loop removed retained rs) k i
              ∙ ground (
                arith,
                is_recorded-drop_loop removed retained rs k i,
                is_recorded-drop_from removed r k i,
                eq_iff (key_of r) k,
              ))
    ]

-- dropRemovedImages forgets an image of a release exactly if the image was removed and the release
-- is not retained, and records nothing new.
pub is_recorded-drop_removed_images :
    (removed retained : List Text) (releases : List ReleaseRecord) (key image : Text)
    → is_recorded (drop_removed_images removed retained releases) key image
      ≡ (is_recorded releases key image && (contains retained key || not (contains removed image)))
unfolding drop_removed_images
is_recorded-drop_removed_images removed retained releases k i =
    elim (Bool-cases (is_empty removed)) [
      | inl e ↦ ground (arith, contains-empty removed i e)
      | inr e ↦ ground (arith, is_recorded-drop_loop removed retained releases k i)
    ]
