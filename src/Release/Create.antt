-- ===== src/Release/Create.antt =====
-- deployment-core/pkg/deploycore/release/model.go: NewRelease, NewDeployment and what they
-- normalise.
pub mod Normalize
pub mod Validity
use devopsellence.Base.{
  ℕ, Bool, true, false, not, ◌&&◌, ◌||◌, Option, none, some, List, [], ◌∷◌, map, keep, Text, ◌==◌,
  codes, trim, is_empty, contains, sort_texts, nat_eq, is_positive, Result, ok, err, ◌>>=◌, ◌>>◌,
  reject_if, if◌then◌else◌,
}
use devopsellence.Plan.Types.{DeploySnapshot}
use devopsellence.Plan.Schedule.{or_default}
use devopsellence.Release.Types.{
  DeploymentStatus, Release, Deployment, ReleaseCreateInput, DeploymentCreateInput, ImageRef, Times,
  kind_deploy, kind_rollback, kind_republish,
}

pub data CreateError : Type 0 where
  release_id_required : CreateError
  environment_id_required : CreateError
  release_revision_required : CreateError
  clone_snapshot : Text → CreateError
  deployment_id_required : CreateError
  unsupported_kind : Text → CreateError
  sequence_not_positive : CreateError

-- The loop: `seen` holds what is already in the output.
unfoldable pub collect_strings : List Text → List Text → List Text
collect_strings seen [] = []
collect_strings seen (value ∷ values) =
    let v = trim value in
    let skipped = collect_strings seen values in
    let kept = v ∷ collect_strings (v ∷ seen) values in
    if is_empty v || contains seen v then skipped else kept

unfoldable pub normalize_strings : List Text → List Text
unfolding collect_strings
normalize_strings values = sort_texts (collect_strings [] values)

unfoldable pub normalize_image : ImageRef → Text → ImageRef
normalize_image image fallback = record {
  repository = trim image.repository;
  digest = trim image.digest;
  reference = or_default (trim image.reference) (trim fallback);
}

unfoldable pub or_now : Times → ℕ → ℕ
or_now times t = if nat_eq t 0 then times.now else t

cloned_or_error : Result Text DeploySnapshot → Result CreateError DeploySnapshot
cloned_or_error (ok s) = ok s
cloned_or_error (err e) = err (clone_snapshot e)

-- `clone` is the round trip of the snapshot through encoding/json.
unfoldable pub new_release :
    Times
    → (clone : DeploySnapshot → Result Text DeploySnapshot) → ReleaseCreateInput
    → Result CreateError Release
unfolding normalize_strings normalize_image or_now cloned_or_error
new_release times clone input = do
  let id = trim input.id
  reject_if (is_empty id) release_id_required
  let environment_id = trim input.environment_id
  reject_if (is_empty environment_id) environment_id_required
  let revision = or_default (trim input.revision) (trim input.snapshot.revision)
  reject_if (is_empty revision) release_revision_required
  cloned ← cloned_or_error (clone input.snapshot)
  ok (record {
    id = id;
    environment_id = environment_id;
    revision = revision;
    config_digest = trim input.config_digest;
    snapshot = record cloned { revision = revision };
    image = normalize_image input.image cloned.image;
    target_node_ids = normalize_strings input.target_node_ids;
    created_at = times.format_rfc3339_nano (or_now times input.created_at);
    command_result = input.command_result;
  })

unfoldable pub is_supported_kind : Text → Bool
is_supported_kind kind = kind == kind_deploy || kind == kind_rollback || kind == kind_republish

-- The value that NewDeployment returns when its checks pass.
unfoldable pub initial_deployment : Times → DeploymentCreateInput → Deployment
unfolding normalize_strings or_now
initial_deployment times input = record {
  id = trim input.id;
  environment_id = trim input.environment_id;
  release_id = trim input.release_id;
  kind = or_default (trim input.kind) kind_deploy;
  sequence = input.sequence;
  target_node_ids = normalize_strings input.target_node_ids;
  status = DeploymentStatus.pending;
  status_message = codes "waiting to publish desired state";
  created_at = times.format_rfc3339 (or_now times input.created_at);
  finished_at = [];
  command_result = none;
  publication_result = none;
}

unfoldable pub new_deployment : Times → DeploymentCreateInput → Result CreateError Deployment
unfolding initial_deployment is_supported_kind
new_deployment times input = do
  reject_if (is_empty (trim input.id)) deployment_id_required
  reject_if (is_empty (trim input.environment_id)) environment_id_required
  reject_if (is_empty (trim input.release_id)) release_id_required
  let kind = or_default (trim input.kind) kind_deploy
  reject_if (not (is_supported_kind kind)) (unsupported_kind kind)
  reject_if (not (is_positive input.sequence)) sequence_not_positive
  ok (initial_deployment times input)
