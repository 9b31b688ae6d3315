-- ===== src/Plan.antt =====
-- deployment-core/pkg/deploycore/desiredstate: how the desired state of a node is planned from the
-- snapshots of the environments that share the node.
pub mod Types
pub mod Schedule
pub mod Ingress
pub mod Publication
pub mod Build
