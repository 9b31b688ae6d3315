-- ===== src/DiskCare/Retention.antt =====
-- agent/internal/diskcare/diskcare.go: which releases and images are kept. A set is a list of keys.
pub mod Newest
pub mod Candidates
use devopsellence.Base.{
  ℕ, Bool, true, false, not, ◌&&◌, ◌||◌, Option, none, some, List, [], ◌∷◌, ◌++◌, map, keep, take,
  Text, ◌==◌, trim, is_empty, contains, distinct, sort_texts, sort_by, ltb, Dict, lookup, insert,
  if◌then◌else◌,
}
use devopsellence.Engine.{ContainerState, ImageState}
use devopsellence.DiskCare.Store.{ReleaseRecord, release_key, key_of}

unfoldable pub seen_later : ReleaseRecord → ReleaseRecord → Bool
seen_later a b = ltb b.last_seen_at a.last_seen_at

-- The releases of an environment, in the order of the list.
unfoldable pub of_environment : Text → List ReleaseRecord → List ReleaseRecord
of_environment environment = keep (λ r. trim r.environment == environment)

-- The environments of the releases, each once.
unfoldable pub environments : List ReleaseRecord → List Text
environments releases = distinct [] (map (λ r. trim r.environment) releases)

-- The keys of the newest releases of one environment.
unfoldable pub newest_keys : ℕ → List ReleaseRecord → Text → List Text
unfolding of_environment seen_later release_key
newest_keys limit releases environment =
    map key_of (take limit (sort_by seen_later (of_environment environment releases)))

unfoldable pub newest_of_all : ℕ → List ReleaseRecord → List Text → List Text
unfolding newest_keys
newest_of_all limit releases [] = []
newest_of_all limit releases (e ∷ es) =
    newest_keys limit releases e ++ newest_of_all limit releases es

-- retainedReleaseKeys, for a limit that is not negative.
unfoldable pub retained_release_keys : List ReleaseRecord → List ReleaseRecord → ℕ → List Text
unfolding newest_of_all environments release_key
retained_release_keys releases current limit =
    map key_of current ++ newest_of_all limit releases (environments releases)

-- The images of the releases that the test passes.
unfoldable pub images_of : (ReleaseRecord → Bool) → List ReleaseRecord → List Text
images_of p [] = []
images_of p (r ∷ rs) = if p r then r.images ++ images_of p rs else images_of p rs

unfoldable pub retained_image_refs :
    List ReleaseRecord
    → (retained_keys : List Text) → List ReleaseRecord
    → (protected_images used_images : List Text) → List Text
unfolding images_of release_key
retained_image_refs releases retained_keys current protected_images used_images =
    protected_images
    ++ (used_images
        ++ (images_of (λ r. true) current
            ++ images_of (λ r. contains retained_keys (key_of r)) releases))

unfoldable pub prune_candidates :
    List ReleaseRecord → (retained_keys retained_images protected_images : List Text) → List Text
unfolding images_of release_key
prune_candidates releases retained_keys retained_images protected_images = sort_texts (
    distinct [] (
      keep (λ image. not (contains retained_images image) && not (contains protected_images image))
        (images_of (λ r. not (contains retained_keys (key_of r))) releases)))

unfoldable pub image_refs : ImageState → List Text
image_refs image = image.id ∷ (image.repo_tags ++ image.repo_digests)

unfoldable pub image_ref_set : List ImageState → List Text
unfolding image_refs
image_ref_set [] = []
image_ref_set (i ∷ is) = image_refs i ++ image_ref_set is

-- Each reference with the size; a later one wins.
unfoldable pub index_refs : ℕ → Dict ℕ → List Text → Dict ℕ
index_refs size index [] = index
index_refs size index (ref ∷ refs) = index_refs size (insert ref size index) refs

unfoldable pub image_size_index : Dict ℕ → List ImageState → Dict ℕ
unfolding index_refs image_refs
image_size_index index [] = index
image_size_index index (i ∷ is) = image_size_index (index_refs i.size index (image_refs i)) is

unfoldable pub size_for_image : Text → Dict ℕ → ℕ
size_for_image image sizes = elim (lookup image sizes) [ none ↦ 0 | some size ↦ size ]

unfoldable pub managed_containers : List ContainerState → List ContainerState
managed_containers = keep (λ c. c.managed)

-- Trimmed, without the empty ones.
unfoldable pub string_set : List Text → List Text
string_set values = keep (λ v. not (is_empty v)) (map trim values)

unfoldable pub used_container_images : List ContainerState → List Text
unfolding string_set
used_container_images containers = string_set (map (λ c. c.image) containers)
