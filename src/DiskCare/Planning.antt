-- ===== src/DiskCare/Planning.antt =====
-- agent/internal/diskcare/diskcare.go: what Manager.Run works with. The engine answers each call from
-- the calls before it, which stand in a log, newest first; the state file and os.Stat are
-- parameters. Errors are texts.
use devopsellence.Base.{
  ℕ, zero, suc, ◌+◌, Bool, not, Option, none, some, List, [], ◌∷◌, ◌++◌, any, Text, codes, trim,
  is_empty, ℤ, pos, negsuc, Result, ok, err, if◌then◌else◌,
}
use devopsellence.DesiredState.Names.{show_number}
use devopsellence.Engine.{ContainerState, ImageState, ImageDelete, ContainerInfo}
use devopsellence.DiskCare.Store.{ReleaseRecord, normalize, upsert}
use devopsellence.DiskCare.Retention.{
  retained_release_keys, retained_image_refs, prune_candidates, string_set, used_container_images,
}

pub record Config : Type 0 where
  pub state_path : Text
  pub retained_previous_releases : ℤ
  pub protected_images : List Text
  pub container_log_max_size : Text
  pub container_log_max_file : ℤ

-- New: a negative retention is the default of 10.
unfoldable pub retention : Config → ℕ
retention cfg = elim cfg.retained_previous_releases [ pos n ↦ n | negsuc n ↦ 10 ]

pub data Event : Type 0 where
  containers_listed : Result Text (List ContainerState) → Event
  images_listed : Result Text (List ImageState) → Event
  image_checked : Text → Result Text Bool → Event
  image_removed : Text → Result Text (List ImageDelete) → Event
  container_inspected : Text → Result Text ContainerInfo → Event

abbrev pub Log : Type 0
Log = List Event

pub record Engine : Type 0 where
  pub list_containers : Log → Result Text (List ContainerState)
  pub list_images : Log → Result Text (List ImageState)
  pub image_exists : Log → Text → Result Text Bool
  pub remove_image : Log → Text → Result Text (List ImageDelete)
  pub inspect : Log → Text → Result Text ContainerInfo

-- A file that is read or asked for: `none` if there is none.
pub record Files : Type 0 where
  pub read_state : Result Text (Option Text)
  pub decode_state : Text → Result Text (List ReleaseRecord)
  pub write_state : List ReleaseRecord → Result Text (Unit {0})
  pub stat_size : Text → Result Text (Option ℕ)

pub record Artifact : Type 0 where
  pub reference : Text
  pub bytes : ℕ

pub record Status : Type 0 where
  pub retained_previous_releases : ℕ
  pub retained_release_count : ℕ
  pub removed_artifacts : List Artifact
  pub reclaimed_bytes : ℕ
  pub docker_log_bytes : ℕ
  pub last_error : Text

-- What Run returns, the calls that it made and the state that it saved, if it came so far.
pub record Outcome : Type 0 where
  pub status : Status
  pub error : Option Text
  pub log : Log
  pub saved : Option (List ReleaseRecord)

abbrev pub join_first : Option Text → Text → Option Text
join_first none e = some e
join_first (some first) e = some first

-- The store and a warning, or an error.
unfoldable pub load_store : Config → Files → Result Text (List ReleaseRecord × Text)
load_store cfg files =
    if is_empty (trim cfg.state_path) then ok ([], []) else elim files.read_state [
      | err e ↦ err (codes "read disk care state: " ++ e)
      | ok none ↦ ok ([], [])
      | ok (some text) ↦
          if is_empty (trim text) then ok ([], []) else elim (files.decode_state text) [
            | err e ↦ ok ([], codes "ignored corrupt disk care state: " ++ e)
            | ok releases ↦ ok (normalize releases, [])
          ]
    ]

unfoldable pub save_store : Config → Files → List ReleaseRecord → Result Text (Unit {0})
save_store cfg files releases =
    if is_empty (trim cfg.state_path) then ok tt else files.write_state releases

unfoldable pub reclaimed_bytes_for_removal : List ImageDelete → ℕ → ℕ
reclaimed_bytes_for_removal removed size =
    if any (λ item. not (is_empty (trim item.deleted))) removed then size else 0

-- `fmt.Errorf("… %s: %w", name, err)`
abbrev pub about : (context name error : Text) → Text
about context name error = context ++ (name ++ (codes ": " ++ error))

-- What the loop over the candidates carries.
pub record Pruning : Type 0 where
  pub removed : List Text
  pub first_error : Option Text
  pub reclaimed : ℕ
  pub artifacts : List Artifact
  pub log : Log

-- The bytes so far, the first error and the calls of dockerLogBytes.
pub record Logged : Type 0 where
  pub total : ℕ
  pub first_error : Option Text
  pub log : Log

-- `path`, `path.1`, …: as many as there are files, at least one.
unfoldable pub rotated_paths : Text → ℕ → ℕ → List Text
rotated_paths path i zero = []
rotated_paths path i (suc left) = (path ++ 46 ∷ show_number i) ∷ rotated_paths path (suc i) left

unfoldable pub log_paths : Text → ℤ → List Text
unfolding rotated_paths
log_paths path (pos (suc n)) =
    if is_empty (trim path) then [] else trim path ∷ rotated_paths (trim path) 1 n
log_paths path _ = if is_empty (trim path) then [] else trim path ∷ []

-- What is worked out of the desired state, the store and what the engine reports.
pub record Plan : Type 0 where
  pub releases : List ReleaseRecord
  pub current : List ReleaseRecord
  pub retained_keys : List Text
  pub used : List Text
  pub protected : List Text
  pub retained_images : List Text
  pub candidates : List Text

unfoldable pub plan : Config → List ReleaseRecord → List ReleaseRecord → List ContainerState → Plan
plan cfg stored current containers =
    let releases = upsert stored current in
    let keys = retained_release_keys releases current (retention cfg + 1) in
    let used = used_container_images containers in
    let protected = string_set cfg.protected_images in
    let images = retained_image_refs releases keys current protected used in
    record {
      releases = releases;
      current = current;
      retained_keys = keys;
      used = used;
      protected = protected;
      retained_images = images;
      candidates = prune_candidates releases keys images protected;
    }
