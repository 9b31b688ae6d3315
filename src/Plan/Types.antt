-- ===== src/Plan/Types.antt =====
-- deployment-core/pkg/deploycore/desiredstate/desiredstate.go: the desired-state document, the
-- deploy snapshot, and config.Node. An absent pointer and a nil slice of labels are `none`.
use devopsellence.Base.{Bool, Option, List, Text, ℤ, Dict}

pub record ServicePortJson : Type 0 where
  pub name : Text
  pub port : ℤ

pub record HealthcheckJson : Type 0 where
  pub path : Text
  pub port : ℤ
  pub interval_seconds : ℤ
  pub timeout_seconds : ℤ
  pub retries : ℤ
  pub start_period_seconds : ℤ

pub record VolumeMountJson : Type 0 where
  pub source : Text
  pub target : Text

pub record ServiceJson : Type 0 where
  pub name : Text
  pub kind : Text
  pub image : Text
  pub entrypoint : List Text
  pub command : List Text
  pub env : Dict Text
  pub healthcheck : Option HealthcheckJson
  pub ports : List ServicePortJson
  pub volume_mounts : List VolumeMountJson

pub record TaskJson : Type 0 where
  pub name : Text
  pub image : Text
  pub entrypoint : List Text
  pub command : List Text
  pub env : Dict Text
  pub volume_mounts : List VolumeMountJson

pub record EnvironmentJson : Type 0 where
  pub name : Text
  pub revision : Text
  pub services : List ServiceJson
  pub tasks : List TaskJson

pub record IngressTlsJson : Type 0 where
  pub mode : Text
  pub email : Text
  pub ca_directory_url : Text

pub record IngressMatchJson : Type 0 where
  pub hostname : Text
  pub path_prefix : Text

pub record IngressTargetJson : Type 0 where
  pub environment : Text
  pub service : Text
  pub port : Text

pub record IngressRouteJson : Type 0 where
  pub match : IngressMatchJson
  pub target : IngressTargetJson

pub record IngressJson : Type 0 where
  pub hosts : List Text
  pub mode : Text
  pub tls : IngressTlsJson
  pub redirect_http : Bool
  pub routes : List IngressRouteJson

pub record NodePeer : Type 0 where
  pub name : Text
  pub labels : List Text
  pub public_address : Text

pub record NodePeerJson : Type 0 where
  pub name : Text
  pub labels : List Text
  pub public_address : Text

pub record DesiredStateJson : Type 0 where
  pub schema_version : ℤ
  pub revision : Text
  pub environments : List EnvironmentJson
  pub ingress : Option IngressJson
  pub node_peers : List NodePeerJson

pub record SnapshotMetadata : Type 0 where
  pub config_path : Text
  pub project : Text
  pub updated_at : Text

pub record DeploySnapshot : Type 0 where
  pub workspace_root : Text
  pub workspace_key : Text
  pub environment : Text
  pub revision : Text
  pub image : Text
  pub services : List ServiceJson
  pub release_task : Option TaskJson
  pub release_service : Text
  pub release_service_kind : Text
  pub ingress : Option IngressJson
  pub ingress_service : Text
  pub ingress_service_kind : Text
  pub secret_refs : Dict (List Text)
  pub metadata : SnapshotMetadata

-- config.Node
pub record NodeConfig : Type 0 where
  pub host : Text
  pub user : Text
  pub port : ℤ
  pub ssh_key : Text
  pub agent_state_dir : Text
  pub labels : Option (List Text)
  pub provider : Text
  pub provider_server_id : Text
  pub provider_region : Text
  pub provider_size : Text
  pub provider_image : Text
