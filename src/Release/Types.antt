-- ===== src/Release/Types.antt =====
-- deployment-core/pkg/deploycore/release/model.go and store.go: the stored values and their
-- constants. A time.Time is a number of nanoseconds, and its zero value is 0.
use devopsellence.Base.{Option, List, Text, codes, ℤ, ℕ}
use devopsellence.Plan.Types.{DeploySnapshot, NodeConfig}

abbrev pub kind_deploy : Text
kind_deploy = codes "deploy"

abbrev pub kind_rollback : Text
kind_rollback = codes "rollback"

abbrev pub kind_republish : Text
kind_republish = codes "republish"

-- The DeploymentStatus constants.
pub data DeploymentStatus : Type 0 where
  pending running settled failed : DeploymentStatus

-- The PublicationStatus constants; `other` is what a store may report beside them.
pub data PublicationStatus : Type 0 where
  pending written failed : PublicationStatus
  other : Text → PublicationStatus

pub record Environment : Type 0 where
  pub id : Text
  pub name : Text
  pub current_release_id : Text
  pub node_ids : List Text

pub record Node : Type 0 where
  pub id : Text
  pub name : Text
  pub config : NodeConfig

pub record ImageRef : Type 0 where
  pub repository : Text
  pub digest : Text
  pub reference : Text

pub record OperationResult : Type 0 where
  pub status : Text
  pub exit_code : ℤ
  pub message : Text
  pub completed_at : Text

pub record Release : Type 0 where
  pub id : Text
  pub environment_id : Text
  pub revision : Text
  pub config_digest : Text
  pub snapshot : DeploySnapshot
  pub image : ImageRef
  pub target_node_ids : List Text
  pub created_at : Text
  pub command_result : Option OperationResult

pub record DesiredStatePublication : Type 0 where
  pub node_id : Text
  pub node_name : Text
  pub revision : Text
  pub sequence : ℤ
  pub status : PublicationStatus
  pub uri : Text
  pub sha256 : Text
  pub published_at : Text
  pub error : Text

pub record DeploymentPublicationResult : Type 0 where
  pub status : PublicationStatus
  pub node_results : List DesiredStatePublication
  pub error_message : Text

pub record Deployment : Type 0 where
  pub id : Text
  pub environment_id : Text
  pub release_id : Text
  pub kind : Text
  pub sequence : ℤ
  pub target_node_ids : List Text
  pub status : DeploymentStatus
  pub status_message : Text
  pub created_at : Text
  pub finished_at : Text
  pub command_result : Option OperationResult
  pub publication_result : Option DeploymentPublicationResult

pub record ReleaseCreateInput : Type 0 where
  pub id : Text
  pub environment_id : Text
  pub revision : Text
  pub config_digest : Text
  pub snapshot : DeploySnapshot
  pub image : ImageRef
  pub target_node_ids : List Text
  pub created_at : ℕ
  pub command_result : Option OperationResult

pub record DeploymentCreateInput : Type 0 where
  pub id : Text
  pub environment_id : Text
  pub release_id : Text
  pub kind : Text
  pub sequence : ℤ
  pub target_node_ids : List Text
  pub created_at : ℕ

pub record EnvironmentRef : Type 0 where
  pub id : Text
  pub name : Text

-- Package time: the clock, the two formats in use, and the parser of RFC 3339. The clock is not
-- read twice in one operation.
pub record Times : Type 0 where
  pub now : ℕ
  pub format_rfc3339 : ℕ → Text
  pub format_rfc3339_nano : ℕ → Text
  pub parse_rfc3339 : Text → Option ℕ
