-- ===== src/Samples/Rollbacks.antt =====
-- A rollback over a store that accepts every call.
use devopsellence.Base.{
  has_prefix, sort_by, sort_texts, distinct, lookup, insert, refl, trim, ◌==◌, equal_fold, ◌≡◌, ◌≢◌,
  [], ◌∷◌, codes, pos, ok, arith,
}
use devopsellence.Plan.Ingress.{merge_ingress_for_node}
use devopsellence.Plan.Schedule.{
  snapshot_should_schedule_ingress, should_schedule_service, snapshot_key,
  normalize_environment_name_token,
}
use devopsellence.Plan.Publication.{plan_node_publication}
use devopsellence.Release.Types.{PublicationStatus, DesiredStatePublication, Node}
use devopsellence.Release.Create.{new_deployment}
use devopsellence.Release.Select.{select_rollback_release, rollback_selector}
use devopsellence.Release.Targets.{target_nodes_for_release}
use devopsellence.Release.Transaction.{
  Tx, Env, RollbackInput, PublicationPlan, plan_publication, desired_state_revision, plan_text,
}
use devopsellence.Release.Rollback.{
  rollback_locked, with_release, with_nodes, create_and_deploy, deploy_release, publish_release,
  publish_nodes, switch_release, settle_deployment, plan_for,
}
use devopsellence.Release.Rollback.Switching.{switches, IsJustified, rollback_locked-IsJustified}
use devopsellence.Samples.Values.{sample_times, two_releases, two_nodes, the_environment}

abbrev accepted : Node → PublicationPlan → DesiredStatePublication
accepted node plan = record {
  node_id = node.id;
  node_name = node.name;
  revision = plan.revision;
  sequence = pos 1;
  status = PublicationStatus.written;
  uri = [];
  sha256 = [];
  published_at = [];
  error = [];
}

abbrev good_store : Tx
good_store = record {
  environment = λ log e. ok the_environment;
  releases = λ log id. ok two_releases;
  nodes = λ log id. ok two_nodes;
  create_deployment = λ log d. ok d;
  update_deployment = λ log d. ok tt;
  publish_desired_state = λ log node plan. ok (accepted node plan);
  set_current_release = λ log environment release. ok tt;
}

abbrev env : Env
env = record {
  times = sample_times;
  encoder = record {
    marshal = λ d. ok (codes "{}");
    marshal_indent = λ d. ok (codes "{}");
    sha256_hex = λ t. codes "00112233";
  };
  decode_revision = λ text. ok (codes "v");
}

abbrev request : RollbackInput
request = record {
  environment = record { id = codes "e"; name = codes "p" };
  selector = codes "r1";
  deployment_id = codes "d";
  sequence = pos 2;
  now = 9;
}

switched : switches (rollback_locked env good_store request).log ≡ (codes "e", codes "r1") ∷ []
unfolding switches rollback_locked with_release with_nodes create_and_deploy deploy_release
    publish_release publish_nodes switch_release settle_deployment select_rollback_release
    rollback_selector trim ◌==◌ equal_fold new_deployment target_nodes_for_release plan_for
    plan_publication plan_node_publication desired_state_revision plan_text has_prefix
    merge_ingress_for_node sort_by snapshot_should_schedule_ingress sort_texts distinct lookup
    insert should_schedule_service snapshot_key normalize_environment_name_token
switched = refl

switches_some : switches (rollback_locked env good_store request).log ≢ []
switches_some = λ h. ground (arith, switched, h)

switching_example : IsJustified env request (rollback_locked env good_store request).log
switching_example = rollback_locked-IsJustified env good_store request switches_some
