-- ===== src/Release.antt =====
-- deployment-core/pkg/deploycore/release: releases, deployments, the choice of a release to roll
-- back to, and the rollback service.
pub mod Types
pub mod Create
pub mod Select
pub mod Targets
pub mod Transaction
pub mod Rollback
