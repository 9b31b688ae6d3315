-- ===== src/Solo/Types.antt =====
-- cli/internal/solo/state.go and secrets.go: the stored values. A nil map is an empty one, which
-- makes ensureDefaults, but for the schema version, and newState's maps nothing to do.
use devopsellence.Base.{Bool, Option, List, [], Text, ℤ, pos, Dict}
use devopsellence.Plan.Types.{DeploySnapshot, NodeConfig}
use devopsellence.Release.Types.{Release, OperationResult, DeploymentPublicationResult}

pub record AttachmentRecord : Type 0 where
  pub workspace_root : Text
  pub workspace_key : Text
  pub environment : Text
  pub node_names : List Text

pub record SecretRecord : Type 0 where
  pub workspace_root : Text
  pub workspace_key : Text
  pub environment : Text
  pub service_name : Text
  pub name : Text
  pub store : Text
  pub value : Text
  pub reference : Text
  pub updated_at : Text

pub record IngressCheckRecord : Type 0 where
  pub workspace_root : Text
  pub workspace_key : Text
  pub environment : Text
  pub is_ok : Bool
  pub check_scope : Text
  pub tls_verified : Bool
  pub public_urls : List Text
  pub expected_ips : List Text
  pub checked_at : Text

-- A release.Deployment as a state file may hold it, whose status is any text.
pub record StoredDeployment : Type 0 where
  pub id : Text
  pub environment_id : Text
  pub release_id : Text
  pub kind : Text
  pub sequence : ℤ
  pub target_node_ids : List Text
  pub status : Text
  pub status_message : Text
  pub created_at : Text
  pub finished_at : Text
  pub command_result : Option OperationResult
  pub publication_result : Option DeploymentPublicationResult

pub record State : Type 0 where
  pub schema_version : ℤ
  pub nodes : Dict NodeConfig
  pub attachments : Dict AttachmentRecord
  pub snapshots : Dict DeploySnapshot
  pub releases : Dict Release
  pub current : Dict Text
  pub deployments : Dict StoredDeployment
  pub secrets : Dict SecretRecord
  pub ingress_checks : Dict IngressCheckRecord

pub record SecretMaterial : Type 0 where
  pub store : Text
  pub value : Text
  pub reference : Text

unfoldable pub new_state : State
new_state = record {
  schema_version = pos 1;
  nodes = [];
  attachments = [];
  snapshots = [];
  releases = [];
  current = [];
  deployments = [];
  secrets = [];
  ingress_checks = [];
}

abbrev pub empty_attachment : AttachmentRecord
empty_attachment = record {
  workspace_root = [];
  workspace_key = [];
  environment = [];
  node_names = [];
}

-- The errors, with what their messages name; the errors of path/filepath and of the disk are texts.
pub data StateError : Type 0 where
  path_failed disk_failed decode_failed : Text → StateError
  store_path_required workspace_required : StateError
  schema_version_unsupported : ℤ → StateError
  node_name_required : StateError
  node_host_required node_user_required node_port_invalid node_unknown : Text → StateError
  release_id_required release_revision_required : StateError
  release_workspace_required release_environment_required : StateError
  release_id_missing release_environment_missing release_revision_missing : Text → StateError
  release_created_at_invalid release_duplicate : Text → StateError
  current_release_missing current_release_elsewhere current_release_duplicate :
      (key release : Text) → StateError
  deployment_id_required : StateError
  deployment_id_missing deployment_environment_missing deployment_release_missing :
      Text → StateError
  deployment_release_unknown deployment_release_elsewhere : (id release : Text) → StateError
  deployment_kind_unsupported deployment_status_unsupported : (id value : Text) → StateError
  deployment_sequence_not_positive deployment_duplicate : Text → StateError
  service_name_required secret_name_required secret_value_required : StateError
  secret_value_stored secret_reference_required secret_reference_invalid : StateError
  secret_store_unsupported : Text → StateError
  secret_unknown : (name service environment : Text) → StateError
