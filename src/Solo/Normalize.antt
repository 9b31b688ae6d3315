-- ===== src/Solo/Normalize.antt =====
-- cli/internal/solo/state.go: normalizeState. A loop over the sorted keys of a map is a loop over its
-- entries, sorted by their keys.
pub mod Normal
use devopsellence.Base.{
  ℕ, Bool, not, ◌||◌, Option, none, some, List, [], ◌∷◌, ◌++◌, Text, ◌==◌, codes, text_lt, trim,
  is_empty, is_positive, sort_by, has_key, Dict, lookup, insert, Result, ok, err, ◌>>=◌, ◌>>◌,
  reject_if, if◌then◌else◌,
}
use devopsellence.Plan.Types.{DeploySnapshot, NodeConfig}
use devopsellence.Plan.Schedule.{default_environment_name}
use devopsellence.Release.Types.{Release, Times}
use devopsellence.Release.Create.{is_supported_kind}
use devopsellence.Solo.Types.{
  AttachmentRecord, SecretRecord, IngressCheckRecord, StoredDeployment, State, StateError,
  release_id_missing, release_environment_missing, release_revision_missing,
  release_created_at_invalid, release_duplicate, current_release_missing, current_release_elsewhere,
  current_release_duplicate, deployment_id_missing, deployment_environment_missing,
  deployment_release_missing, deployment_release_unknown, deployment_release_elsewhere,
  deployment_kind_unsupported, deployment_status_unsupported, deployment_sequence_not_positive,
  deployment_duplicate, service_name_required, secret_name_required,
}
use devopsellence.Solo.Keys.{
  Paths, joined_key, first_non_empty, normalize_workspace_identity, environment_of, secret_key,
  split_secret_state_key,
}
use devopsellence.Solo.Nodes.{normalize_and_validate_node}
use devopsellence.Solo.Attachments.{normalize_node_names}
use devopsellence.Solo.Releases.{parsed_or_error}
use devopsellence.Solo.Secrets.{normalize_secret_store, validate_secret_material}

unfoldable pub sorted_entries {ℓ} : {V : Type ℓ} → Dict V → List (Text × V)
unfolding sort_by text_lt
sorted_entries = sort_by (λ a b. text_lt a.0 b.0)

module _ {ℓ κ} {V : Type ℓ} {W : Type κ} where
  -- `for _, key := range keys { …; normalized[…] = … }`
  abbrev pub fold_entries :
      (Text → V → Dict W → Result StateError (Dict W))
      → List (Text × V)
      → Dict W
      → Result StateError (Dict W)
  fold_entries step [] done = ok done
  fold_entries step ((key, value) ∷ rest) done =
      step key value done >>= λ more. fold_entries step rest more

  unfoldable pub fold_sorted :
      (Text → V → Dict W → Result StateError (Dict W)) → Dict V → Result StateError (Dict W)
  unfolding sorted_entries
  fold_sorted step entries = fold_entries step (sorted_entries entries) []

unfoldable pub add_node : Text → NodeConfig → Dict NodeConfig → Result StateError (Dict NodeConfig)
add_node name node nodes =
    normalize_and_validate_node name node >>= λ normalized. ok (insert name normalized nodes)

unfoldable pub is_status : Text → Bool
is_status status =
    status == codes "pending"
    || (status == codes "running" || (status == codes "settled" || status == codes "failed"))

-- An attachment joined with what its key has already.
unfoldable pub joined_attachment : Option AttachmentRecord → AttachmentRecord → AttachmentRecord
joined_attachment none new = new
joined_attachment (some existing) new = record new {
  node_names = normalize_node_names (existing.node_names ++ new.node_names);
  workspace_root =
      if is_empty (trim new.workspace_root) then existing.workspace_root else new.workspace_root;
}

-- The entry of a current release, once the release is found.
unfoldable pub put_current :
    (key normalized_key id : Text)
    → Option Release
    → Option Text
    → Dict Text
    → Result StateError (Dict Text)
put_current key normalized_key id none existing done = err (current_release_missing key id)
put_current key normalized_key id (some release) existing done =
    reject_if (not (release.environment_id == normalized_key)) (current_release_elsewhere key id)
    >> elim existing [
      | none ↦ ok (insert normalized_key id done)
      | some other ↦
          if other == id then ok done else err (current_release_duplicate normalized_key id)
    ]

unfoldable pub trimmed_deployment : Text → StoredDeployment → StoredDeployment
trimmed_deployment key d = record d {
  id = first_non_empty (d.id ∷ key ∷ []);
  environment_id = trim d.environment_id;
  release_id = trim d.release_id;
  kind = trim d.kind;
  status = trim d.status;
}

unfoldable pub check_deployed :
    (key : Text) → StoredDeployment → Option Release → Result StateError (Unit {0})
check_deployed key d none = err (deployment_release_unknown key d.release_id)
check_deployed key d (some release) =
    reject_if (not (release.environment_id == d.environment_id))
      (deployment_release_elsewhere key d.release_id)

unfoldable pub check_deployment :
    Dict Release → (key : Text) → StoredDeployment → Result StateError (Unit {0})
unfolding check_deployed is_status
check_deployment releases key d = do
  reject_if (is_empty d.id) (deployment_id_missing key)
  reject_if (is_empty d.environment_id) (deployment_environment_missing key)
  reject_if (is_empty d.release_id) (deployment_release_missing key)
  check_deployed key d (lookup d.release_id releases)
  reject_if (not (is_supported_kind d.kind)) (deployment_kind_unsupported key d.kind)
  reject_if (not (is_status d.status)) (deployment_status_unsupported key d.status)
  reject_if (not (is_positive d.sequence)) (deployment_sequence_not_positive key)

unfoldable pub add_deployment :
    Dict Release
    → Text
    → StoredDeployment
    → Dict StoredDeployment
    → Result StateError (Dict StoredDeployment)
unfolding trimmed_deployment check_deployment
add_deployment releases key deployment done = do
  let d = trimmed_deployment key deployment
  check_deployment releases key d
  reject_if (has_key d.id done) (deployment_duplicate d.id)
  ok (insert d.id d done)

module _ (paths : Paths) where
  unfoldable pub normalize_attachment_record :
      Text → AttachmentRecord → Result StateError (Text × AttachmentRecord)
  normalize_attachment_record key attachment =
      normalize_workspace_identity paths key attachment.workspace_root attachment.workspace_key
      >>= λ id.
          let environment = environment_of key attachment.environment in
          ok (
            joined_key id.1 environment,
            record {
              workspace_root = id.0;
              workspace_key = id.1;
              environment = environment;
              node_names = normalize_node_names attachment.node_names;
            },
          )

  unfoldable pub add_attachment :
      Text → AttachmentRecord → Dict AttachmentRecord → Result StateError (Dict AttachmentRecord)
  unfolding normalize_attachment_record joined_attachment
  add_attachment key attachment done = normalize_attachment_record key attachment >>= λ new.
      ok (insert new.0 (joined_attachment (lookup new.0 done) new.1) done)

  unfoldable pub normalize_snapshot_record :
      Text → DeploySnapshot → Result StateError (Text × DeploySnapshot)
  normalize_snapshot_record key snapshot =
      normalize_workspace_identity paths key snapshot.workspace_root snapshot.workspace_key
      >>= λ id.
          let environment = environment_of key snapshot.environment in
          ok (
            joined_key id.1 environment,
            record snapshot {
              workspace_root = id.0;
              workspace_key = id.1;
              environment = environment;
            },
          )

  unfoldable pub add_snapshot :
      Text → DeploySnapshot → Dict DeploySnapshot → Result StateError (Dict DeploySnapshot)
  unfolding normalize_snapshot_record
  add_snapshot key snapshot done =
      normalize_snapshot_record key snapshot >>= λ new. ok (insert new.0 new.1 done)

  unfoldable pub normalize_release : Times → Text → Release → Result StateError Release
  unfolding normalize_snapshot_record
  normalize_release times key release = do
    let id = first_non_empty (release.id ∷ key ∷ [])
    let environment_id = trim release.environment_id
    let revision = trim release.revision
    let created_at = trim release.created_at
    reject_if (is_empty id) (release_id_missing key)
    reject_if (is_empty environment_id) (release_environment_missing key)
    reject_if (is_empty revision) (release_revision_missing key)
    at ← parsed_or_error key (times.parse_rfc3339 created_at)
    new ← normalize_snapshot_record environment_id release.snapshot
    ok (record release {
      id = id;
      environment_id = new.0;
      revision = revision;
      created_at = created_at;
      snapshot = record new.1 { revision = revision };
    })

  unfoldable pub add_release :
      Times → Text → Release → Dict Release → Result StateError (Dict Release)
  unfolding normalize_release
  add_release times key release done = do
    new ← normalize_release times key release
    reject_if (has_key new.id done) (release_duplicate new.id)
    ok (insert new.id new done)

  unfoldable pub add_current :
      Dict Release → Text → Text → Dict Text → Result StateError (Dict Text)
  unfolding put_current
  add_current releases key value done = normalize_workspace_identity paths key [] [] >>= λ identity.
      let id = trim value in
      let normalized_key = joined_key identity.1 (environment_of key []) in
      if is_empty id
      then ok done
      else put_current key normalized_key id (lookup id releases) (lookup normalized_key done) done

  unfoldable pub normalize_secret_record :
      Text → SecretRecord → Result StateError (Text × SecretRecord)
  normalize_secret_record key secret = do
    id ← normalize_workspace_identity paths key secret.workspace_root secret.workspace_key
    let parts = split_secret_state_key key
    let environment =
        default_environment_name (first_non_empty (secret.environment ∷ parts.environment ∷ []))
    let service = first_non_empty (secret.service_name ∷ parts.service ∷ [])
    let name = first_non_empty (secret.name ∷ parts.name ∷ [])
    store ← normalize_secret_store secret.store
    reject_if (is_empty service) service_name_required
    reject_if (is_empty name) secret_name_required
    reference ← validate_secret_material store secret.value secret.reference
    ok (
      secret_key id.1 environment service name,
      record secret {
        workspace_root = id.0;
        workspace_key = id.1;
        environment = environment;
        service_name = service;
        name = name;
        store = store;
        reference = reference;
      },
    )

  unfoldable pub add_secret :
      Text → SecretRecord → Dict SecretRecord → Result StateError (Dict SecretRecord)
  unfolding normalize_secret_record
  add_secret key secret done =
      normalize_secret_record key secret >>= λ new. ok (insert new.0 new.1 done)

  unfoldable pub normalize_ingress_check_record :
      Text → IngressCheckRecord → Result StateError (Text × IngressCheckRecord)
  normalize_ingress_check_record key check =
      normalize_workspace_identity paths key check.workspace_root check.workspace_key >>= λ id.
      let environment = environment_of key check.environment in
      ok (
        joined_key id.1 environment,
        record check {
          workspace_root = id.0;
          workspace_key = id.1;
          environment = environment;
          public_urls = normalize_node_names check.public_urls;
          expected_ips = normalize_node_names check.expected_ips;
          checked_at = trim check.checked_at;
        },
      )

  unfoldable pub add_ingress_check :
      Text
      → IngressCheckRecord
      → Dict IngressCheckRecord
      → Result StateError (Dict IngressCheckRecord)
  unfolding normalize_ingress_check_record
  add_ingress_check key check done =
      normalize_ingress_check_record key check >>= λ new. ok (insert new.0 new.1 done)

  unfoldable pub normalize_state : Times → State → Result StateError State
  unfolding fold_sorted add_node add_attachment add_snapshot add_release add_current add_deployment
      add_secret add_ingress_check
  normalize_state times state = do
    nodes ← fold_sorted add_node state.nodes
    attachments ← fold_sorted add_attachment state.attachments
    snapshots ← fold_sorted add_snapshot state.snapshots
    releases ← fold_sorted (add_release times) state.releases
    current ← fold_sorted (add_current releases) state.current
    deployments ← fold_sorted (add_deployment releases) state.deployments
    secrets ← fold_sorted add_secret state.secrets
    ingress_checks ← fold_sorted add_ingress_check state.ingress_checks
    ok (record {
      schema_version = state.schema_version;
      nodes = nodes;
      attachments = attachments;
      snapshots = snapshots;
      releases = releases;
      current = current;
      deployments = deployments;
      secrets = secrets;
      ingress_checks = ingress_checks;
    })
