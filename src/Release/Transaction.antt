-- ===== src/Release/Transaction.antt =====
-- deployment-core/pkg/deploycore/release/store.go, and PlanPublication of model.go: the store's
-- transaction, which answers each call from the calls before it, what a rollback takes and returns,
-- and the plan for one node. Other errors than those of this package are texts.
use devopsellence.Base.{
  ℕ, Bool, true, false, Option, List, [], ◌∷◌, ◌++◌, map, Text, codes, trim, is_empty, Dict, Result,
  ok, err, ◌>>=◌, ℤ, if◌then◌else◌,
}
use devopsellence.Plan.Types.{NodeConfig, NodePeer}
use devopsellence.Plan.Ingress.{different_settings, duplicate_route}
use devopsellence.Plan.Publication.{Encoder, PlanError, merging, encoding, plan_node_publication}
use devopsellence.Release.Types.{
  Environment, EnvironmentRef, Node, Release, Deployment, DesiredStatePublication, Times,
}
use devopsellence.Release.Create.{CreateError}
use devopsellence.Release.Select.{SelectError}

pub record PublicationPlan : Type 0 where
  pub node_name : Text
  pub desired_state_json : Text
  pub revision : Text

pub record PublicationPlanInput : Type 0 where
  pub node_name : Text
  pub node : NodeConfig
  pub releases : List Release
  pub release_nodes : Dict Text
  pub node_peers : List NodePeer

-- A call of the transaction with its answer.
pub data Event : Type 0 where
  environment_read : EnvironmentRef → Result Text Environment → Event
  releases_read : Text → Result Text (List Release) → Event
  nodes_read : Text → Result Text (List Node) → Event
  deployment_created : Deployment → Result Text Deployment → Event
  deployment_updated : Deployment → Result Text (Unit {0}) → Event
  state_published : Node → PublicationPlan → Result Text DesiredStatePublication → Event
  current_release_set : Text → Text → Result Text (Unit {0}) → Event

abbrev pub Log : Type 0
Log = List Event

pub record Tx : Type 0 where
  pub environment : Log → EnvironmentRef → Result Text Environment
  pub releases : Log → Text → Result Text (List Release)
  pub nodes : Log → Text → Result Text (List Node)
  pub create_deployment : Log → Deployment → Result Text Deployment
  pub update_deployment : Log → Deployment → Result Text (Unit {0})
  pub publish_desired_state : Log → Node → PublicationPlan → Result Text DesiredStatePublication
  pub set_current_release : Log → Text → Text → Result Text (Unit {0})

pub data RollbackError : Type 0 where
  store_required : RollbackError
  -- An error that the store returned, or that publishing met.
  failure : Text → RollbackError
  selecting : SelectError → RollbackError
  creating : CreateError → RollbackError
  -- errors.Join
  joined : (first second : Text) → RollbackError

pub record RollbackInput : Type 0 where
  pub environment : EnvironmentRef
  pub selector : Text
  pub deployment_id : Text
  pub sequence : ℤ
  pub now : ℕ

pub record RollbackResult : Type 0 where
  pub release : Release
  pub deployment : Deployment
  pub publications : List DesiredStatePublication

-- What Rollback returns, and the calls that were made; the zero RollbackResult is `none`.
pub record Outcome : Type 0 where
  pub result : Option RollbackResult
  pub error : Option RollbackError
  pub log : Log

abbrev pub no_target_nodes : Text
no_target_nodes = codes "no target nodes match release"

join_comma : List Text → Text
join_comma [] = []
join_comma (t ∷ []) = t
join_comma (t ∷ u ∷ ts) = t ++ (codes ", " ++ join_comma (u ∷ ts))

named_if : Bool → Text → List Text
named_if true t = t ∷ []
named_if false t = []

-- The texts of the errors of package desiredstate.
unfoldable pub plan_error_text : PlanError → Text
unfolding join_comma named_if
plan_error_text (encoding e) = e
plan_error_text (merging (different_settings tls mode redirect)) =
    codes "cannot merge ingress for co-hosted environments with different settings: "
    ++ join_comma (
        named_if tls (codes "TLS")
        ++ (named_if mode (codes "mode") ++ named_if redirect (codes "redirect_http")))
plan_error_text (merging (duplicate_route hostname prefix)) =
    codes "cannot merge ingress for co-hosted environments with duplicate route: "
    ++ (hostname ++ prefix)

-- `decode` reads the field `revision` of a document.
unfoldable pub desired_state_revision : (decode : Text → Result Text Text) → Text → Result Text Text
desired_state_revision decode bytes = decode bytes >>= λ revision.
    if is_empty (trim revision)
    then err (codes "desired state revision is missing")
    else ok (trim revision)

unfoldable pub plan_text : {A : Type 0} → Result PlanError A → Result Text A
plan_text (ok a) = ok a
plan_text (err e) = err (plan_error_text e)

-- What the service takes from the standard library.
pub record Env : Type 0 where
  pub times : Times
  pub encoder : Encoder
  pub decode_revision : Text → Result Text Text

unfoldable pub plan_publication : Env → PublicationPlanInput → Result Text PublicationPlan
unfolding plan_text desired_state_revision
plan_publication env input = do
  publication ← plan_text (
      plan_node_publication env.encoder (record {
        node_name = input.node_name;
        current_node = input.node;
        snapshots = map (λ r. r.snapshot) input.releases;
        release_nodes = input.release_nodes;
        node_peers = input.node_peers;
      }))
  revision ← desired_state_revision env.decode_revision publication.desired_state_json
  ok (record {
    node_name = publication.node_name;
    desired_state_json = publication.desired_state_json;
    revision = revision;
  })
