-- ===== src/Solo/Releases.antt =====
-- cli/internal/solo/state.go: the snapshots, releases and deployments of the state. An operation
-- returns the new state beside what it returns in Go.
pub mod Saving
use devopsellence.Base.{
  ℕ, Bool, not, ◌&&◌, Option, none, some, List, [], ◌∷◌, map, keep, Text, ◌==◌, text_lt, trim,
  is_empty, ltb, nat_eq, sort_by, Dict, lookup, insert, or_value, Result, ok, err, ◌>>=◌, ◌>>◌,
  reject_if, for_each, if◌then◌else◌,
}
use devopsellence.Plan.Types.{DeploySnapshot}
use devopsellence.Plan.Schedule.{default_environment_name}
use devopsellence.Release.Types.{Release, Times}
use devopsellence.Solo.Types.{
  State, StoredDeployment, StateError, release_id_required, release_revision_required,
  release_workspace_required, release_environment_required, release_created_at_invalid,
  deployment_id_required,
}
use devopsellence.Solo.Keys.{Paths, environment_state_key, split_environment_state_key}

-- The release as SaveRelease stores it under its key.
unfoldable pub keyed_release : Text → Release → Release
unfolding default_environment_name
keyed_release key release = record release {
  environment_id = key;
  snapshot = record release.snapshot {
    workspace_key = (split_environment_state_key key).0;
    environment = default_environment_name release.snapshot.environment;
    revision = release.revision;
  };
}

-- The three maps that SaveRelease writes.
unfoldable pub store_release : Text → Release → State → State
store_release key new state = record state {
  releases = insert new.id new state.releases;
  current = insert key new.id state.current;
  snapshots = insert key new.snapshot state.snapshots;
}

-- The current release of a key; a missing entry is an empty id.
unfoldable pub current_under : State → Text → Option Release
current_under state key =
    let id = trim (or_value [] (lookup key state.current)) in
    if is_empty id then none else lookup id state.releases

module _ (paths : Paths) where
  -- State.Snapshot
  unfoldable pub snapshot :
      State → (root environment : Text) → Result StateError (Text × Option DeploySnapshot)
  snapshot state root environment =
      environment_state_key paths root environment >>= λ key. ok (key, lookup key state.snapshots)

  unfoldable pub save_snapshot : DeploySnapshot → State → Result StateError (Text × State)
  save_snapshot new state =
      environment_state_key paths new.workspace_root new.environment >>= λ key. ok (
        key,
        record state {
          snapshots =
              insert key (record new { workspace_key = (split_environment_state_key key).0 })
                state.snapshots;
        },
      )

  unfoldable pub save_release : Release → State → Result StateError (Text × State)
  unfolding keyed_release store_release
  save_release release state = do
    reject_if (is_empty (trim release.id)) release_id_required
    reject_if (is_empty (trim release.revision)) release_revision_required
    reject_if (is_empty (trim release.snapshot.workspace_root)) release_workspace_required
    reject_if (is_empty (trim release.snapshot.environment)) release_environment_required
    key ← environment_state_key paths release.snapshot.workspace_root release.snapshot.environment
    ok (key, store_release key (keyed_release key release) state)

  unfoldable pub current_release :
      State → (root environment : Text) → Result StateError (Text × Option Release)
  unfolding current_under
  current_release state root environment =
      environment_state_key paths root environment >>= λ key. ok (key, current_under state key)

abbrev pub parsed_or_error : Text → Option ℕ → Result StateError ℕ
parsed_or_error id none = err (release_created_at_invalid id)
parsed_or_error id (some at) = ok at

-- The time that a release was created at, by its id.
unfoldable pub created_at_by_id : Times → Dict ℕ → List Release → Result StateError (Dict ℕ)
created_at_by_id times created [] = ok created
created_at_by_id times created (release ∷ releases) =
    parsed_or_error release.id (times.parse_rfc3339 (trim release.created_at)) >>= λ at.
    created_at_by_id times (insert release.id at created) releases

-- The later first, and between equal times the greater id first.
unfoldable pub release_before : Dict ℕ → Release → Release → Bool
release_before created a b =
    let at = or_value 0 (lookup a.id created) in
    let bt = or_value 0 (lookup b.id created) in
    if nat_eq at bt then text_lt b.id a.id else ltb bt at

unfoldable pub release_history :
    Paths → Times → State → (root environment : Text) → Result StateError (List Release)
unfolding created_at_by_id release_before
release_history paths times state root environment = do
  key ← environment_state_key paths root environment
  let releases = keep (λ r. r.environment_id == key) (map (λ entry. entry.1) state.releases)
  created ← created_at_by_id times [] releases
  ok (sort_by (release_before created) releases)

unfoldable pub save_deployment : StoredDeployment → State → Result StateError State
save_deployment deployment state =
    reject_if (is_empty (trim deployment.id)) deployment_id_required
    >> ok (record state { deployments = insert deployment.id deployment state.deployments })
