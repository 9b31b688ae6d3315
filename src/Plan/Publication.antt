-- ===== src/Plan/Publication.antt =====
-- deployment-core/pkg/deploycore/desiredstate/desiredstate.go: PlanNodePublication. The JSON encoder
-- and the hash are parameters; `sort.Slice` is taken as stable, one of the orders that it allows
-- between two snapshots of one key.
pub mod Planned
use devopsellence.Base.{
  Bool, ◌&&◌, Option, none, some, List, [], ◌∷◌, ◌++◌, keep, map, Text, ◌==◌, codes, trim, is_empty,
  take, Dict, insert, lookup, Result, ok, err, ◌>>=◌, text_lt, sort_by, if◌then◌else◌, pos,
}
use devopsellence.Plan.Types.{
  DeploySnapshot, DesiredStateJson, EnvironmentJson, IngressJson, TaskJson, NodeConfig, NodePeer,
}
use devopsellence.Plan.Schedule.{
  default_environment_name, snapshot_key, should_schedule_service, build_node_peers,
  normalize_environment_name_token,
}
use devopsellence.Plan.Ingress.{MergeError, merge_ingress_for_node}

pub data PlanError : Type 0 where
  merging : MergeError → PlanError
  encoding : Text → PlanError

-- encoding/json on the document, and the hexadecimal SHA-256 of a text.
pub record Encoder : Type 0 where
  pub marshal : DesiredStateJson → Result Text Text
  pub marshal_indent : DesiredStateJson → Result Text Text
  pub sha256_hex : Text → Text

pub record NodePublicationInput : Type 0 where
  pub node_name : Text
  pub current_node : NodeConfig
  pub snapshots : List DeploySnapshot
  pub release_nodes : Dict Text
  pub node_peers : List NodePeer

pub record NodePublication : Type 0 where
  pub node_name : Text
  pub desired_state_json : Text

unfoldable pub snapshot_less : DeploySnapshot → DeploySnapshot → Bool
snapshot_less a b =
    if a.workspace_key == b.workspace_key
    then text_lt a.environment b.environment
    else text_lt a.workspace_key b.workspace_key

-- `m[key]`, with the zero value for a missing key.
abbrev text_at : Text → Dict Text → Text
text_at k m = elim (lookup k m) [ none ↦ [] | some v ↦ v ]

unfoldable pub environment_tasks : Text → NodeConfig → Dict Text → DeploySnapshot → List TaskJson
environment_tasks node_name node release_nodes s = elim s.release_task [
  | none ↦ []
  | some task ↦
      if trim (text_at (snapshot_key s) release_nodes) == node_name
        && should_schedule_service node.labels s.release_service_kind
      then task ∷ []
      else []
]

unfoldable pub build_environment :
    Text → NodeConfig → Dict Text → Dict Text → DeploySnapshot → EnvironmentJson
unfolding environment_tasks
build_environment node_name node release_nodes names s = record {
  name = text_at (snapshot_key s) names;
  revision = trim s.revision;
  services = keep (λ service. should_schedule_service node.labels service.kind) s.services;
  tasks = environment_tasks node_name node release_nodes s;
}

-- `fmt.Errorf("…: %w", err)` around an error of the encoder.
unfoldable pub encoded : Text → Result Text Text → Result PlanError Text
encoded context (ok a) = ok a
encoded context (err e) = err (encoding (context ++ e))

module _ (encoder : Encoder) where
  unfoldable pub unique_aggregated_environment_name : DeploySnapshot → Text → Text
  unique_aggregated_environment_name s base =
      let key = trim s.workspace_key in
      let source = if is_empty key then trim s.workspace_root else key in
      let suffix = take 8 (encoder.sha256_hex source) in
      let project = normalize_environment_name_token s.metadata.project in
      if is_empty project then base ++ 45 ∷ suffix else project ++ 45 ∷ (base ++ 45 ∷ suffix)

  unfoldable pub aggregated_environment_names : Dict Text → List DeploySnapshot → Dict Text
  unfolding unique_aggregated_environment_name
  aggregated_environment_names names [] = names
  aggregated_environment_names names (s ∷ ss) =
      let name = unique_aggregated_environment_name s (default_environment_name s.environment) in
      aggregated_environment_names (insert (snapshot_key s) name names) ss

  unfoldable pub synthetic_revision : DesiredStateJson → Result PlanError Text
  unfolding encoded
  synthetic_revision ds =
      encoded (codes "marshal synthetic revision input: ")
        (encoder.marshal (record ds { revision = [] }))
      >>= λ bytes. ok (encoder.sha256_hex bytes)

  unfoldable pub merged_ingress :
      Option (List Text) → List DeploySnapshot → Dict Text → Result PlanError (Option IngressJson)
  merged_ingress labels attached names = elim (merge_ingress_for_node labels attached names) [
    | ok i ↦ ok i
    | err e ↦ err (merging e)
  ]

  -- The document of a node, before its revision is known.
  unfoldable pub aggregated_document :
      NodePublicationInput → List DeploySnapshot → Option IngressJson → DesiredStateJson
  unfolding build_environment aggregated_environment_names
  aggregated_document input attached ingress =
      let names = aggregated_environment_names [] attached in
      record {
        schema_version = pos 2;
        revision = [];
        environments =
            map (build_environment input.node_name input.current_node input.release_nodes names)
              attached;
        ingress = ingress;
        node_peers = build_node_peers input.node_peers;
      }

  unfoldable pub build_aggregated_desired_state : NodePublicationInput → Result PlanError Text
  unfolding aggregated_document merged_ingress synthetic_revision encoded snapshot_less
  build_aggregated_desired_state input = do
    let attached = sort_by snapshot_less input.snapshots
    let names = aggregated_environment_names [] attached
    ingress ← merged_ingress input.current_node.labels attached names
    let ds = aggregated_document input attached ingress
    revision ← synthetic_revision ds
    encoded (codes "marshal desired state: ")
        (encoder.marshal_indent (record ds { revision = revision }))

  unfoldable pub plan_node_publication : NodePublicationInput → Result PlanError NodePublication
  unfolding build_aggregated_desired_state
  plan_node_publication input = build_aggregated_desired_state input >>= λ bytes.
      ok (record { node_name = trim input.node_name; desired_state_json = bytes })
