-- ===== src/DiskCare/Store.antt =====
-- agent/internal/diskcare/diskcare.go: the record of the releases that the node has seen. Where the
-- code ranges over a map of releases, they come in order of first insertion.
pub mod Normalized
pub mod Dropped
use devopsellence.Base.{
  ℕ, Bool, true, false, not, ◌&&◌, ◌||◌, Option, none, some, List, [], ◌∷◌, ◌++◌, map, keep, Text,
  ◌==◌, trim, is_empty, contains, distinct, sort_texts, ltb, Dict, lookup, insert, if◌then◌else◌,
}
use devopsellence.DesiredState.Types.{DesiredState}
use devopsellence.DesiredState.Runtime.{
  RuntimeService, RuntimeTask, runtime_services, runtime_tasks,
}

pub record ReleaseRecord : Type 0 where
  pub environment : Text
  pub revision : Text
  pub images : List Text
  pub last_seen_at : ℕ

unfoldable pub release_key : (environment revision : Text) → Text
release_key environment revision = trim environment ++ 0 ∷ trim revision

abbrev pub key_of : ReleaseRecord → Text
key_of r = release_key r.environment r.revision

-- The loop of mergeStrings; `seen` holds what is already in the output.
unfoldable pub merge_loop : List Text → List Text → List Text
merge_loop seen [] = []
merge_loop seen (value ∷ values) =
    let v = trim value in
    let skipped = merge_loop seen values in
    let kept = v ∷ merge_loop (v ∷ seen) values in
    if is_empty v then skipped else if contains seen v then skipped else kept

unfoldable pub merge_strings : List Text → List Text → List Text
unfolding merge_loop
merge_strings a b = sort_texts (merge_loop [] (a ++ b))

unfoldable pub add_release_image :
    Dict ReleaseRecord → (environment revision image : Text) → ℕ → Dict ReleaseRecord
unfolding release_key
add_release_image releases environment revision image now =
    let env = trim environment in
    let rev = trim revision in
    let img = trim image in
    let key = release_key env rev in
    let old : ReleaseRecord = elim (lookup key releases) [
      | none ↦ record { environment = env; revision = rev; images = []; last_seen_at = now }
      | some r ↦ r
    ] in
    if is_empty env || is_empty rev || is_empty img
    then releases
    else insert key
        (record old {
          images = if contains old.images img then old.images else old.images ++ img ∷ [];
        })
        releases

unfoldable pub add_services : ℕ → Dict ReleaseRecord → List RuntimeService → Dict ReleaseRecord
unfolding add_release_image
add_services now releases [] = releases
add_services now releases (s ∷ ss) =
    add_services now
      (add_release_image releases s.environment_name s.environment_revision s.service.image now) ss

unfoldable pub add_tasks : ℕ → Dict ReleaseRecord → List RuntimeTask → Dict ReleaseRecord
unfolding add_release_image
add_tasks now releases [] = releases
add_tasks now releases (t ∷ ts) =
    add_tasks now
      (add_release_image releases t.environment_name t.environment_revision t.task.image now) ts

unfoldable pub releases_from_desired : DesiredState → ℕ → List ReleaseRecord
unfolding add_services add_tasks
releases_from_desired state now =
    map (λ e. record (e.1) { images = sort_texts e.1.images })
      (add_tasks now (add_services now [] (runtime_services state)) (runtime_tasks state))

-- The record with its texts trimmed and its images merged.
unfoldable pub normalized_record : ReleaseRecord → ReleaseRecord
unfolding merge_strings
normalized_record r = record {
  environment = trim r.environment;
  revision = trim r.revision;
  images = merge_strings [] r.images;
  last_seen_at = r.last_seen_at;
}

abbrev pub later_of : ℕ → ℕ → ℕ
later_of a b = if ltb a b then b else a

-- The record of a key that is there already, with another one of the key.
unfoldable pub merged_record : Option ReleaseRecord → ReleaseRecord → ReleaseRecord
unfolding merge_strings
merged_record none r = r
merged_record (some old) r = record old {
  images = merge_strings old.images r.images;
  last_seen_at = later_of old.last_seen_at r.last_seen_at;
}

-- The body of the loop of `normalize`.
unfoldable pub normalize_step : Dict ReleaseRecord → ReleaseRecord → Dict ReleaseRecord
unfolding normalized_record merged_record release_key
normalize_step by_key release =
    let r = normalized_record release in
    if is_empty r.environment || is_empty r.revision || is_empty r.images
    then by_key
    else insert (key_of r) (merged_record (lookup (key_of r) by_key) r) by_key

unfoldable pub normalize_loop : Dict ReleaseRecord → List ReleaseRecord → Dict ReleaseRecord
unfolding normalize_step
normalize_loop by_key [] = by_key
normalize_loop by_key (r ∷ rs) = normalize_loop (normalize_step by_key r) rs

unfoldable pub normalize : List ReleaseRecord → List ReleaseRecord
unfolding normalize_loop
normalize releases = map (λ e. e.1) (normalize_loop [] releases)

-- The first release of the key seen again.
unfoldable pub refresh : ReleaseRecord → List ReleaseRecord → List ReleaseRecord
unfolding merge_strings release_key
refresh r [] = []
refresh r (x ∷ xs) =
    if key_of x == key_of r
    then record x { images = merge_strings x.images r.images; last_seen_at = r.last_seen_at } ∷ xs
    else x ∷ refresh r xs

-- The loop of `upsert`; `known` are the keys before it.
unfoldable pub upsert_loop :
    List Text → List ReleaseRecord → List ReleaseRecord → List ReleaseRecord
unfolding refresh release_key
upsert_loop known stored [] = stored
upsert_loop known stored (r ∷ rs) =
    upsert_loop known (if contains known (key_of r) then refresh r stored else stored ++ r ∷ []) rs

unfoldable pub upsert : List ReleaseRecord → List ReleaseRecord → List ReleaseRecord
unfolding normalize upsert_loop
upsert stored releases = let base = normalize stored in upsert_loop (map key_of base) base releases

-- The release without its removed images, if any image is left.
unfoldable pub drop_from : List Text → ReleaseRecord → List ReleaseRecord
drop_from removed r =
    let images = keep (λ image. not (contains removed image)) r.images in
    if is_empty images then [] else record r { images = images } ∷ []

unfoldable pub drop_loop : List Text → List Text → List ReleaseRecord → List ReleaseRecord
unfolding drop_from release_key
drop_loop removed retained [] = []
drop_loop removed retained (r ∷ rs) =
    (if contains retained (key_of r) then r ∷ [] else drop_from removed r)
    ++ drop_loop removed retained rs

-- dropRemovedImages
unfoldable pub drop_removed_images : List Text → List Text → List ReleaseRecord → List ReleaseRecord
unfolding drop_loop
drop_removed_images removed retained releases =
    if is_empty removed then releases else drop_loop removed retained releases
