-- ===== src/DiskCare/Retention/Candidates.antt =====
-- agent/internal/diskcare/diskcare.go: what an image must not be to be a candidate for removal.
use devopsellence.Base.{
  Bool, true, false, not, ◌&&◌, ◌≡◌, refl, List, [], ◌∷◌, ◌++◌, All, Text, contains,
  contains-append, contains-keep, contains-distinct, keep, distinct, arith,
}
use devopsellence.Base.Filtering.{All-map}
use devopsellence.Base.SortLaws.{contains-sort}
use devopsellence.DiskCare.Store.{ReleaseRecord, key_of}
use devopsellence.DiskCare.Retention.{images_of, retained_image_refs, prune_candidates}

images_of-absent :
    (p : ReleaseRecord → Bool) (rs : List ReleaseRecord) (image : Text)
    → contains (images_of p rs) image ≡ false
    → All (λ r. p r ≡ true → contains r.images image ≡ false) rs
unfolding images_of
images_of-absent p [] image h = tt
images_of-absent p (r ∷ rs) image h = (
  (λ e. ground (arith, contains-append r.images (images_of p rs) image)),
  images_of-absent p rs image (ground (arith, contains-append r.images (images_of p rs) image)),
)

module _ (releases current : List ReleaseRecord) (keys protected used : List Text) where
  abbrev images : List Text
  images = retained_image_refs releases keys current protected used

  -- A candidate is not retained.
  prune_candidates-unretained :
      (image : Text)
      → contains (prune_candidates releases keys images protected) image ≡ true
      → contains images image ≡ false
  unfolding prune_candidates
  prune_candidates-unretained image h = ground (
    arith,
    contains-sort (distinct [] wanted) image,
    contains-distinct [] wanted image,
    contains-keep (λ i. not (contains images i) && not (contains protected i)) all_images image,
  )
    where
      all_images : List Text
      all_images = images_of (λ r. not (contains keys (key_of r))) releases

      wanted : List Text
      wanted = keep (λ i. not (contains images i) && not (contains protected i)) all_images

  -- A candidate is protected, in use, or an image of a current or a retained release in no case.
  pub prune_candidates-spared :
      (image : Text)
      → contains (prune_candidates releases keys images protected) image ≡ true
      → (contains protected image ≡ false)
        × (contains used image ≡ false)
        × All (λ r. contains r.images image ≡ false) current
        × All (λ r. contains keys (key_of r) ≡ true → contains r.images image ≡ false) releases
  unfolding retained_image_refs
  prune_candidates-spared image h =
      let absent = prune_candidates-unretained image h in
      let rest =
        images_of (λ r. true) current ++ images_of (λ r. contains keys (key_of r)) releases in
      let a = contains-append protected (used ++ rest) image in
      let b = contains-append used rest image in
      let c =
        contains-append (images_of (λ r. true) current)
          (images_of (λ r. contains keys (key_of r)) releases) image in
      (
        ground (arith, a),
        ground (arith, a, b),
        All-map (λ r. true ≡ true → contains r.images image ≡ false) _ (λ r f. f refl) current
            (images_of-absent (λ r. true) current image (ground (arith, a, b, c))),
        images_of-absent (λ r. contains keys (key_of r)) releases image (ground (arith, a, b, c)),
      )
