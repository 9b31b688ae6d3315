-- ===== src/Release/Create/Validity.antt =====
-- deployment-core/pkg/deploycore/release/model.go: when NewDeployment and NewRelease succeed, and
-- what holds of the values that they make.
use devopsellence.Base.{
  Bool, true, false, not, ◌&&◌, ◌≡◌, ◌↔◌, none, Text, trim, is_empty, contains, map, Result, ok,
  is_positive, arith,
}
use devopsellence.Base.SortLaws.{Ascending}
use devopsellence.Plan.Types.{DeploySnapshot}
use devopsellence.Plan.Schedule.{or_default}
use devopsellence.Release.Types.{
  Release, Deployment, DeploymentStatus, DeploymentCreateInput, ReleaseCreateInput, Times,
  kind_deploy,
}
use devopsellence.Release.Create.{initial_deployment, new_deployment, is_supported_kind}
use devopsellence.Release.Create.Normalize.{normalize_strings-Ascending}

-- The checks of NewDeployment as one test.
pub is_acceptable : DeploymentCreateInput → Bool
is_acceptable input =
    not (is_empty (trim input.id))
    && not (is_empty (trim input.environment_id))
    && not (is_empty (trim input.release_id))
    && is_supported_kind (or_default (trim input.kind) kind_deploy)
    && is_positive input.sequence

-- A deployment as it is created.
pub record IsPending (d : Deployment) : Type 0 where
  pub named : is_empty d.id ≡ false
  pub placed : is_empty d.environment_id ≡ false
  pub released : is_empty d.release_id ≡ false
  pub kind_known : is_supported_kind d.kind ≡ true
  pub counted : is_positive d.sequence ≡ true
  pub targets : Ascending d.target_node_ids
  pub waiting : d.status ≡ DeploymentStatus.pending
  pub unpublished : d.publication_result ≡ none

new_deployment-IsPending_of :
    (times : Times) (input : DeploymentCreateInput) (d : Deployment)
    → new_deployment times input ≡ ok d
    → IsPending d
unfolding new_deployment
new_deployment-IsPending_of times input d h =
    ground (arith, normalize_strings-Ascending input.target_node_ids)

new_deployment_accepts :
    (times : Times) (input : DeploymentCreateInput)
    → is_acceptable input ≡ true
    → (d : Deployment) × (new_deployment times input ≡ ok d)
unfolding new_deployment is_acceptable
new_deployment_accepts times input h = (initial_deployment times input, ground arith)

-- NewDeployment succeeds exactly if the three ids are not blank, the kind is blank or supported and
-- the sequence is positive; the deployment that it makes then is pending, unpublished, and keeps
-- those properties, with its target nodes strictly ascending.
pub new_deployment_lem :
    (times : Times) (input : DeploymentCreateInput)
    → ((is_acceptable input ≡ true) ↔ ((d : Deployment) × (new_deployment times input ≡ ok d)))
      × ((d : Deployment) → new_deployment times input ≡ ok d → IsPending d)
unfolding new_deployment is_acceptable
new_deployment_lem times input = (
  (new_deployment_accepts times input, λ e. ground (arith, e)),
  new_deployment-IsPending_of times input,
)

-- What ties the fields of a release together, and to the input it is made from.
pub record IsConsistent (clone : DeploySnapshot → Result Text DeploySnapshot)
    (input : ReleaseCreateInput) (r : Release) : Type 0 where
  pub named : is_empty r.id ≡ false
  pub placed : is_empty r.environment_id ≡ false
  pub revised : is_empty r.revision ≡ false
  pub revision_known : r.revision ≡ or_default (trim input.revision) (trim input.snapshot.revision)
  pub cloned : DeploySnapshot
  pub snapshot_known : clone input.snapshot ≡ ok cloned
  pub same_revision : r.snapshot ≡ record cloned { revision = r.revision }
  pub targets : Ascending r.target_node_ids
  pub targets_known :
      (id : Text)
      → contains r.target_node_ids id
        ≡ (contains (map trim input.target_node_ids) id && not (is_empty id))
  pub image_known :
      r.image.reference ≡ or_default (trim input.image.reference) (trim r.snapshot.image)
