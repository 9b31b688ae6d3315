-- ===== src/DiskCare/Run/Safety.antt =====
-- agent/internal/diskcare/diskcare.go: which images Run removes.
use devopsellence.Base.{
  ℕ, ◌+◌, true, false, ◌≡◌, refl, ap, ◌∙◌, none, List, [], ◌∷◌, All, Text, trim, is_empty, contains,
  Dict, ok, Result-cases, arith, Bool-cases, inl, inr, ◌⊎◌, ℤ,
}
use devopsellence.Base.TextLaws.{eq_iff}
use devopsellence.DesiredState.Types.{DesiredState}
use devopsellence.Engine.{ContainerState, ImageState}
use devopsellence.DiskCare.Store.{ReleaseRecord, key_of, releases_from_desired, upsert}
use devopsellence.DiskCare.Retention.{
  image_ref_set, image_size_index, managed_containers, retained_release_keys, used_container_images,
  string_set,
}
use devopsellence.DiskCare.Retention.Candidates.{prune_candidates-spared}
use devopsellence.DiskCare.Planning.{
  Config, retention, containers_listed, image_removed, Log, Engine, Files, Pruning, Plan,
  load_store, Logged, log_paths, plan,
}
use devopsellence.DiskCare.Run.{
  prune_image, prune_images, add_log_sizes, add_container, docker_log_bytes, clean_up,
  run_with_images, run_loaded, run,
}

-- The removals that were tried.
unfoldable pub removals : Log → List Text
removals [] = []
removals (image_removed image answer ∷ log) = image ∷ removals log
removals (_ ∷ log) = removals log

nothing_in_nil : (i : Text) → contains [] i ≡ true → ⊥
unfolding contains
nothing_in_nil i h = cc

module _ (engine : Engine) where
  removals-prune_image :
      (used refs : List Text) (sizes : Dict ℕ) (image : Text) (p : Pruning)
      → (removals (prune_image engine used refs sizes image p).log ≡ removals p.log)
        ⊎ ((contains used image ≡ false)
            × (removals (prune_image engine used refs sizes image p).log ≡ image ∷ removals p.log))
  unfolding prune_image removals
  removals-prune_image used refs sizes image p = ground arith

  -- The image is in `images`, and not in use.
  abbrev Removable : List Text → List Text → Text → Type 0
  Removable used images i = (contains images i ≡ true) × (contains used i ≡ false)

  removals-prune_images :
      (used refs : List Text) (sizes : Dict ℕ) (images : List Text) (p : Pruning) (i : Text)
      → contains (removals (prune_images engine used refs sizes images p).log) i ≡ true
      → (contains (removals p.log) i ≡ true) ⊎ Removable used images i
  unfolding prune_images contains
  removals-prune_images used refs sizes [] p i h = inl h
  removals-prune_images used refs sizes (x ∷ xs) p i h =
      elim (removals-prune_images used refs sizes xs (prune_image engine used refs sizes x p) i h) [
        | inr (m, u) ↦ inr (ground (arith, m), u)
        | inl m ↦ elim (removals-prune_image used refs sizes x p) [
          | inl same ↦ inl (rw same at m)
          | inr (u, more) ↦ ground (arith, ap (λ l. contains l i) more, eq_iff x i)
        ]
      ]

  module _ (files : Files) where
    log-add_log_sizes :
        (paths : List Text) (l : Logged) → (add_log_sizes engine files paths l).log ≡ l.log
    unfolding add_log_sizes
    log-add_log_sizes [] l = refl
    log-add_log_sizes (x ∷ xs) l = log-add_log_sizes xs _ ∙ ground arith

    removals-add_container :
        (max_file : ℤ) (c : ContainerState) (l : Logged)
        → removals (add_container engine files max_file c l).log ≡ removals l.log
    unfolding add_container removals
    removals-add_container max_file c l = elim (Bool-cases (is_empty (trim c.name))) [
      | inl e ↦ rw (e, add_container) refl
      | inr e ↦ elim (Result-cases (engine.inspect l.log c.name)) [
        | inr (m, f) ↦ rw (e, add_container) (rw f refl)
        | inl (info, f) ↦
            rw (e, add_container)
              (rw f (ap removals (log-add_log_sizes (log_paths info.log_path max_file) _)))
      ]
    ]

    removals-docker_log_bytes :
        (max_file : ℤ) (cs : List ContainerState) (l : Logged)
        → removals (docker_log_bytes engine files max_file cs l).log ≡ removals l.log
    unfolding docker_log_bytes
    removals-docker_log_bytes max_file [] l = refl
    removals-docker_log_bytes max_file (c ∷ cs) l =
        removals-docker_log_bytes max_file cs (add_container engine files max_file c l)
        ∙ removals-add_container max_file c l

    removals-clean_up :
        (cfg : Config) (warning : Text) (p : Plan) (containers : List ContainerState)
        (images : List ImageState) (log : Log) (i : Text)
        → removals log ≡ []
        → contains (removals (clean_up engine files cfg warning p containers images log).log) i
          ≡ true
        → Removable p.used p.candidates i
    unfolding clean_up
    removals-clean_up cfg warning p containers images log i none_yet h =
        let start : Pruning = record {
          removed = [];
          first_error = none;
          reclaimed = 0;
          artifacts = [];
          log = log;
        } in
        let refs = image_ref_set images in
        let sizes = image_size_index [] images in
        let logs =
          removals-docker_log_bytes cfg.container_log_max_file (managed_containers containers)
            (record {
              total = 0;
              first_error = none;
              log = (prune_images engine p.used refs sizes p.candidates start).log;
            }) in
        elim (removals-prune_images p.used refs sizes p.candidates start i (rw logs at h)) [
          | inl old ↦ absurd (nothing_in_nil i (rw none_yet at old))
          | inr removable ↦ removable
        ]

-- Why an image may be removed: no container uses it, it is not protected, and no release of the
-- desired state or of the retention window holds it.
pub record IsSpare (engine : Engine) (files : Files) (cfg : Config) (now : ℕ)
    (desired : DesiredState) (image : Text) : Type 0 where
  pub containers : List ContainerState
  pub stored : List ReleaseRecord
  pub warning : Text
  pub listed : engine.list_containers [] ≡ ok containers
  pub loaded : load_store cfg files ≡ ok (stored, warning)
  pub unused : contains (used_container_images containers) image ≡ false
  pub unprotected : contains (string_set cfg.protected_images) image ≡ false
  pub not_current : All (λ r. contains r.images image ≡ false) (releases_from_desired desired now)
  pub not_retained :
      let current = releases_from_desired desired now in
      let releases = upsert stored current in
      All
        (λ r.
          contains (retained_release_keys releases current (retention cfg + 1)) (key_of r) ≡ true
          → contains r.images image ≡ false)
        releases

module _ (engine : Engine) (files : Files) (cfg : Config) (now : ℕ) (desired : DesiredState) where
  planned-IsSpare :
      (stored : List ReleaseRecord) (warning : Text) (containers : List ContainerState)
      → load_store cfg files ≡ ok (stored, warning)
      → engine.list_containers [] ≡ ok containers
      → (i : Text)
      → let p = plan cfg stored (releases_from_desired desired now) containers in
        Removable engine p.used p.candidates i → IsSpare engine files cfg now desired i
  unfolding plan
  planned-IsSpare stored warning containers loaded listed i (candidate, unused) =
      let current = releases_from_desired desired now in
      let releases = upsert stored current in
      let keys = retained_release_keys releases current (retention cfg + 1) in
      let (unprotected, _, not_current, not_retained) =
        prune_candidates-spared releases current keys (string_set cfg.protected_images)
          (used_container_images containers) i candidate in
      record {
        containers = containers;
        stored = stored;
        warning = warning;
        listed = listed;
        loaded = loaded;
        unused = unused;
        unprotected = unprotected;
        not_current = not_current;
        not_retained = not_retained;
      }

  -- Every image that Run asks the engine to remove is spare: no listed container uses it, it is not
  -- protected by the configuration, and it is an image neither of a release of the desired state nor
  -- of a release in the retention window.
  pub run-IsSpare :
      (i : Text)
      → contains (removals (run engine files cfg now desired).log) i ≡ true
      → IsSpare engine files cfg now desired i
  unfolding run run_loaded run_with_images removals
  run-IsSpare i = elim (Result-cases (load_store cfg files)) [
    | inr (m, e) ↦ rw (e, run) (λ h. absurd (nothing_in_nil i h))
    | inl ((stored, warning), e) ↦
        rw (e, run)
          (elim (Result-cases (engine.list_containers [])) [
            | inr (m, f) ↦ rw (f, run_loaded) (λ h. absurd (nothing_in_nil i h))
            | inl (containers, f) ↦
                rw (f, run_loaded)
                  (elim (Result-cases
                    (engine.list_images (containers_listed (ok containers) ∷ []))) [
                      | inr (m, g) ↦ rw (g, run_with_images) (λ h. absurd (nothing_in_nil i h))
                      | inl (images, g) ↦
                          rw (g, run_with_images)
                            (λ h. planned-IsSpare stored warning containers e f i (
                              removals-clean_up engine files cfg warning
                                (plan cfg stored (releases_from_desired desired now) containers)
                                containers images _ i refl h))
                    ])
          ])
  ]
