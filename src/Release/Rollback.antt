-- ===== src/Release/Rollback.antt =====
-- deployment-core/pkg/deploycore/release/service.go and store.go: Service.Rollback over a store.
-- The store's transaction answers each call from the calls before it, which stand in a log, newest
-- first, with their answers. WithEnvironmentLock is taken to run the function once and to return
-- its error, or to fail before it. Other errors than those of this package are texts.
mod Cases
pub mod Switching
pub mod Recording
use devopsellence.Base.{
  ℕ, Bool, true, false, not, Option, none, some, List, [], ◌∷◌, ◌++◌, map, Text, codes, trim,
  is_empty, Dict, Result, ok, err, ◌>>=◌, ℤ, pos, if◌then◌else◌,
}
use devopsellence.Plan.Types.{DeploySnapshot, NodeConfig, NodePeer}
use devopsellence.Plan.Ingress.{MergeError, different_settings, duplicate_route}
use devopsellence.Plan.Publication.{Encoder, PlanError, merging, encoding, plan_node_publication}
use devopsellence.Release.Types.{
  Environment, EnvironmentRef, Node, Release, Deployment, DeploymentStatus, PublicationStatus,
  DesiredStatePublication, DeploymentPublicationResult, Times, kind_rollback,
}
use devopsellence.Release.Create.{CreateError, new_deployment, or_now}
use devopsellence.Release.Select.{SelectError, select_rollback_release}
use devopsellence.Release.Targets.{
  target_nodes_for_release, release_nodes_for_publication, node_peers_for_publication,
}
use devopsellence.Release.Transaction.{
  Env, Log, Outcome, PublicationPlan, RollbackError, RollbackInput, RollbackResult, Tx, creating,
  current_release_set, deployment_created, deployment_updated, environment_read, failure, joined,
  no_target_nodes, nodes_read, plan_publication, releases_read, selecting, state_published,
  store_required,
}

-- The failed publication of a node.
abbrev pub failed_publication : Node → Text → Text → DesiredStatePublication
failed_publication node revision error = record {
  node_id = node.id;
  node_name = node.name;
  revision = revision;
  sequence = pos 0;
  status = PublicationStatus.failed;
  uri = [];
  sha256 = [];
  published_at = [];
  error = error;
}

-- How the loop over the nodes ends: the publications so far, oldest first, and the error if any.
pub record Published : Type 0 where
  pub publications : List DesiredStatePublication
  pub error : Option Text
  pub log : Log

unfoldable pub finish_time : Times → ℕ → Text
unfolding or_now
finish_time times now = times.format_rfc3339 (or_now times now)

abbrev pub finished :
    Deployment
    → DeploymentStatus
    → Text
    → Text
    → PublicationStatus
    → List DesiredStatePublication
    → Text
    → Deployment
finished d status message at published publications error = record d {
  status = status;
  status_message = message;
  finished_at = at;
  publication_result =
      some (record { status = published; node_results = publications; error_message = error });
}

module _ (env : Env) (tx : Tx) (input : RollbackInput) where
  unfoldable pub plan_for : Release → Dict Text → List Node → Node → Result Text PublicationPlan
  plan_for selected release_nodes nodes node = plan_publication env (record {
    node_name = node.name;
    node = node.config;
    releases = selected ∷ [];
    release_nodes = release_nodes;
    node_peers = node_peers_for_publication nodes node.name;
  })

  -- The loop over the target nodes; `plan` plans one node, and `done` are the publications before.
  unfoldable pub publish_nodes :
      (plan : Node → Result Text PublicationPlan)
      → List DesiredStatePublication
      → List Node
      → Log
      → Published
  publish_nodes plan done [] log = record { publications = done; error = none; log = log }
  publish_nodes plan done (node ∷ nodes) log = elim (plan node) [
    | err e ↦ record {
      publications = done ++ failed_publication node [] e ∷ [];
      error = some e;
      log = log;
    }
    | ok p ↦ elim (tx.publish_desired_state log node p) [
      | err e ↦ record {
        publications = done ++ failed_publication node p.revision e ∷ [];
        error = some e;
        log = state_published node p (err e) ∷ log;
      }
      | ok publication ↦
          publish_nodes plan (done ++ publication ∷ []) nodes
            (state_published node p (ok publication) ∷ log)
    ]
  ]

  -- A result that is returned if the last update is accepted.
  abbrev pub if_updated :
      Result Text (Unit {0})
      → Release
      → Deployment
      → List DesiredStatePublication
      → Option RollbackResult
  if_updated (err e) selected d publications = none
  if_updated (ok u) selected d publications =
      some (record { release = selected; deployment = d; publications = publications })

  -- errors.Join with the error of the last update, if there is one.
  abbrev pub joined_with : Text → Result Text (Unit {0}) → RollbackError
  joined_with error (err e) = joined error e
  joined_with error (ok u) = failure error

  abbrev pub error_of : Result Text (Unit {0}) → Option RollbackError
  error_of (err e) = some (failure e)
  error_of (ok u) = none

  -- failDeployment, and the returns that follow it.
  unfoldable pub fail_deployment :
      Release → Deployment → Text → List DesiredStatePublication → Text → Log → Outcome
  fail_deployment selected deployment message publications error log =
      let d =
        finished deployment DeploymentStatus.failed message (finish_time env.times input.now)
          PublicationStatus.failed publications error in
      let answer = tx.update_deployment log d in
      record {
        result = if_updated answer selected d publications;
        error = some (joined_with error answer);
        log = deployment_updated d answer ∷ log;
      }

  -- The last update, after every node has been published and the release is current.
  unfoldable pub settle_deployment :
      Release → Deployment → List DesiredStatePublication → Log → Outcome
  settle_deployment selected deployment publications log =
      let d =
        finished deployment DeploymentStatus.settled (codes "rollback published")
          (finish_time env.times input.now) PublicationStatus.written publications [] in
      let answer = tx.update_deployment log d in
      record {
        result = if_updated answer selected d publications;
        error = error_of answer;
        log = deployment_updated d answer ∷ log;
      }

  unfoldable pub switch_release :
      Text → Release → Deployment → List DesiredStatePublication → Log → Outcome
  switch_release environment_id selected deployment publications log =
      elim (tx.set_current_release log environment_id selected.id) [
        | err e ↦
            fail_deployment selected deployment (codes "failed to set current release") publications
              e (current_release_set environment_id selected.id (err e) ∷ log)
        | ok u ↦
            settle_deployment selected deployment publications
              (current_release_set environment_id selected.id (ok u) ∷ log)
      ]

  after_publishing : Text → Release → Deployment → Published → Outcome
  after_publishing environment_id selected deployment published = elim published.error [
    | some e ↦
        fail_deployment selected deployment (codes "desired state publish failed")
          published.publications e published.log
    | none ↦ switch_release environment_id selected deployment published.publications published.log
  ]

  -- From the update to `running` on.
  unfoldable pub publish_release :
      Text → Release → List Node → List Node → Deployment → Log → Outcome
  unfolding after_publishing
  publish_release environment_id selected nodes targets deployment log =
      let d = record deployment {
        status = DeploymentStatus.running;
        status_message = codes "publishing desired state";
      } in
      elim (tx.update_deployment log d) [
        | err e ↦ record {
          result = none;
          error = some (failure e);
          log = deployment_updated d (err e) ∷ log;
        }
        | ok u ↦ after_publishing environment_id selected d (
            publish_nodes (plan_for selected (release_nodes_for_publication selected targets) nodes)
              [] targets (deployment_updated d (ok u) ∷ log))
      ]

  -- From the created deployment on.
  unfoldable pub deploy_release :
      Text → Release → List Node → List Node → Deployment → Log → Outcome
  deploy_release environment_id selected nodes targets deployment log =
      if is_empty targets
      then fail_deployment selected deployment no_target_nodes [] no_target_nodes log
      else publish_release environment_id selected nodes targets deployment log

  abbrev stopped : RollbackError → Log → Outcome
  stopped e log = record { result = none; error = some e; log = log }

  unfoldable pub create_and_deploy : Environment → Release → List Node → Log → Outcome
  create_and_deploy environment selected nodes log =
      let targets = target_nodes_for_release nodes selected in
      elim (new_deployment env.times (record {
        id = input.deployment_id;
        environment_id = environment.id;
        release_id = selected.id;
        kind = kind_rollback;
        sequence = input.sequence;
        target_node_ids = map (λ node. node.id) targets;
        created_at = input.now;
      })) [
        | err e ↦ stopped (creating e) log
        | ok d ↦ elim (tx.create_deployment log d) [
          | err e ↦ stopped (failure e) (deployment_created d (err e) ∷ log)
          | ok created ↦
              deploy_release environment.id selected nodes targets created
                (deployment_created d (ok created) ∷ log)
        ]
      ]

  unfoldable pub with_nodes : Environment → Release → Log → Outcome
  with_nodes environment selected log = elim (tx.nodes log environment.id) [
    | err e ↦ stopped (failure e) (nodes_read environment.id (err e) ∷ log)
    | ok nodes ↦
        create_and_deploy environment selected nodes (nodes_read environment.id (ok nodes) ∷ log)
  ]

  select_and_continue : Environment → List Release → Log → Outcome
  select_and_continue environment releases log =
      elim (select_rollback_release env.times releases environment.current_release_id
        input.selector) [
          | err e ↦ stopped (selecting e) log
          | ok selected ↦ with_nodes environment selected log
        ]

  -- rollbackRelease, and what follows.
  unfoldable pub with_release : Environment → Log → Outcome
  unfolding select_and_continue
  with_release environment log = elim (tx.releases log environment.id) [
    | err e ↦ stopped (failure e) (releases_read environment.id (err e) ∷ log)
    | ok releases ↦
        select_and_continue environment releases (releases_read environment.id (ok releases) ∷ log)
  ]

  -- The function that runs under the environment's lock.
  unfoldable pub rollback_locked : Outcome
  rollback_locked = elim (tx.environment [] input.environment) [
    | err e ↦ stopped (failure e) (environment_read input.environment (err e) ∷ [])
    | ok environment ↦
        with_release environment (environment_read input.environment (ok environment) ∷ [])
  ]

-- A store that is absent, whose lock fails, or that runs the transaction.
pub data Store : Type 0 where
  absent : Store
  lock_fails : Text → Store
  runs : Tx → Store

unfoldable pub rollback : Env → Store → RollbackInput → Outcome
unfolding rollback_locked
rollback env absent input = record { result = none; error = some store_required; log = [] }
rollback env (lock_fails e) input = record { result = none; error = some (failure e); log = [] }
rollback env (runs tx) input = rollback_locked env tx input
