-- ===== src/DiskCare/Run.antt =====
-- agent/internal/diskcare/diskcare.go: Manager.Run. The engine answers each call from the calls
-- before it, which stand in a log, newest first; the state file and os.Stat are parameters. The clock
-- is read once, and the manager is not nil. Errors are texts.
pub mod Safety
use devopsellence.Base.{
  ℕ, zero, suc, ◌+◌, Bool, true, false, not, ◌&&◌, ◌||◌, Option, none, some, List, [], ◌∷◌, ◌++◌,
  map, keep, any, length, Text, codes, ◌==◌, trim, is_empty, contains, distinct, leb, ltb, Dict,
  lookup, ℤ, pos, negsuc, Result, ok, err, if◌then◌else◌,
}
use devopsellence.DesiredState.Types.{DesiredState}
use devopsellence.DesiredState.Names.{show_number}
use devopsellence.Engine.{ContainerState, ImageState, ImageDelete, ContainerInfo}
use devopsellence.DiskCare.Store.{
  ReleaseRecord, releases_from_desired, normalize, upsert, drop_removed_images,
}
use devopsellence.DiskCare.Retention.{
  retained_release_keys, retained_image_refs, prune_candidates, image_ref_set, image_size_index,
  size_for_image, managed_containers, string_set, used_container_images,
}
use devopsellence.DiskCare.Planning.{
  Config, Engine, Files, Log, Logged, Outcome, Plan, Pruning, Status, about, container_inspected,
  containers_listed, image_checked, image_removed, images_listed, join_first, load_store, log_paths,
  plan, reclaimed_bytes_for_removal, retention, save_store,
}

abbrev first_status : Config → Text → Status
first_status cfg warning = record {
  retained_previous_releases = retention cfg;
  retained_release_count = 0;
  removed_artifacts = [];
  reclaimed_bytes = 0;
  docker_log_bytes = 0;
  last_error = warning;
}

abbrev stopped : Config → Text → Log → Outcome
stopped cfg e log = record { status = first_status cfg e; error = some e; log = log; saved = none }

abbrev and_then : Option Text → Result Text (Unit {0}) → Option Text
and_then first (ok u) = first
and_then first (err e) = join_first first e

abbrev and_first : Option Text → Option Text → Option Text
and_first first none = first
and_first first (some e) = join_first first e

abbrev error_or : Option Text → Text → Text
error_or none warning = warning
error_or (some e) warning = e

module _ (engine : Engine) where
  unfoldable pub image_is_there : List Text → Text → Log → Result Text Bool × Log
  image_is_there refs image log = if contains refs image then (ok true, log) else (
    engine.image_exists log image,
    image_checked image (engine.image_exists log image) ∷ log,
  )

  unfoldable pub remove_candidate : Dict ℕ → Text → Pruning → Pruning
  unfolding reclaimed_bytes_for_removal
  remove_candidate sizes image p = elim (engine.remove_image p.log image) [
    | err e ↦ record p {
      first_error = join_first p.first_error (about (codes "remove image ") image e);
      log = image_removed image (err e) ∷ p.log;
    }
    | ok deleted ↦
        let bytes = reclaimed_bytes_for_removal deleted (size_for_image image sizes) in
        record {
          removed = image ∷ p.removed;
          first_error = p.first_error;
          reclaimed = p.reclaimed + bytes;
          artifacts = p.artifacts ++ record { reference = image; bytes = bytes } ∷ [];
          log = image_removed image (ok deleted) ∷ p.log;
        }
  ]

  -- By whether the image is there; `p` has the log after the question.
  unfoldable pub prune_known : Dict ℕ → Text → Result Text Bool → Pruning → Pruning
  unfolding remove_candidate
  prune_known sizes image (err e) p = record p {
    first_error = join_first p.first_error (about (codes "inspect image ") image e);
  }
  prune_known sizes image (ok false) p = record p { removed = image ∷ p.removed }
  prune_known sizes image (ok true) p = remove_candidate sizes image p

  -- The body of the loop over the candidates.
  unfoldable pub prune_image : List Text → List Text → Dict ℕ → Text → Pruning → Pruning
  unfolding image_is_there prune_known
  prune_image used refs sizes image p =
      let (answer, log) = image_is_there refs image p.log in
      if contains used image then p else prune_known sizes image answer (record p { log = log })

  unfoldable pub prune_images : List Text → List Text → Dict ℕ → List Text → Pruning → Pruning
  unfolding prune_image
  prune_images used refs sizes [] p = p
  prune_images used refs sizes (image ∷ images) p =
      prune_images used refs sizes images (prune_image used refs sizes image p)

  module _ (files : Files) where
    unfoldable pub add_log_sizes : List Text → Logged → Logged
    add_log_sizes [] l = l
    add_log_sizes (path ∷ paths) l = add_log_sizes paths (elim (files.stat_size path) [
      | err e ↦ record l {
        first_error = join_first l.first_error (about (codes "stat log ") path e);
      }
      | ok none ↦ l
      | ok (some size) ↦ record l { total = l.total + size }
    ])

    unfoldable pub add_container : ℤ → ContainerState → Logged → Logged
    unfolding add_log_sizes log_paths
    add_container max_file c l =
        if is_empty (trim c.name) then l else elim (engine.inspect l.log c.name) [
          | err e ↦ record l {
            first_error =
                join_first l.first_error
                  (codes "inspect container " ++ (c.name ++ (codes " for logs: " ++ e)));
            log = container_inspected c.name (err e) ∷ l.log;
          }
          | ok info ↦
              add_log_sizes (log_paths info.log_path max_file)
                (record l { log = container_inspected c.name (ok info) ∷ l.log })
        ]

    unfoldable pub docker_log_bytes : ℤ → List ContainerState → Logged → Logged
    unfolding add_container
    docker_log_bytes max_file [] l = l
    docker_log_bytes max_file (c ∷ cs) l = docker_log_bytes max_file cs (add_container max_file c l)

    -- From the plan on: prune, record what is left, measure the logs.
    unfoldable pub clean_up :
        Config → Text → Plan → List ContainerState → List ImageState → Log → Outcome
    unfolding prune_images docker_log_bytes
    clean_up cfg warning plan containers images log =
        let pruned =
          prune_images plan.used (image_ref_set images) (image_size_index [] images) plan.candidates
            (record {
              removed = [];
              first_error = none;
              reclaimed = 0;
              artifacts = [];
              log = log;
            }) in
        let kept = drop_removed_images pruned.removed plan.retained_keys plan.releases in
        let logged =
          docker_log_bytes cfg.container_log_max_file (managed_containers containers)
            (record { total = 0; first_error = none; log = pruned.log }) in
        let error =
          and_first (and_then pruned.first_error (save_store cfg files kept)) logged.first_error in
        record {
          status = record {
            retained_previous_releases = retention cfg;
            retained_release_count = length (distinct [] plan.retained_keys);
            removed_artifacts = pruned.artifacts;
            reclaimed_bytes = pruned.reclaimed;
            docker_log_bytes = logged.total;
            last_error = error_or error warning;
          };
          error = error;
          log = logged.log;
          saved = some kept;
        }

    unfoldable pub run_with_images :
        Config
        → Text
        → List ReleaseRecord
        → List ReleaseRecord
        → List ContainerState
        → Log
        → Outcome
    run_with_images cfg warning stored current containers log = elim (engine.list_images log) [
      | err e ↦ stopped cfg (codes "list images: " ++ e) (images_listed (err e) ∷ log)
      | ok images ↦
          clean_up cfg warning (plan cfg stored current containers) containers images
            (images_listed (ok images) ∷ log)
    ]

    unfoldable pub run_loaded : Config → Text → List ReleaseRecord → List ReleaseRecord → Outcome
    run_loaded cfg warning stored current = elim (engine.list_containers []) [
      | err e ↦ stopped cfg (codes "list containers: " ++ e) (containers_listed (err e) ∷ [])
      | ok containers ↦
          run_with_images cfg warning stored current containers
            (containers_listed (ok containers) ∷ [])
    ]

    -- Run with an engine and a desired state, at the time `now`.
    unfoldable pub run : Config → ℕ → DesiredState → Outcome
    run cfg now desired = elim (load_store cfg files) [
      | err e ↦ stopped cfg e []
      | ok (stored, warning) ↦ run_loaded cfg warning stored (releases_from_desired desired now)
    ]
