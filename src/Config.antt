-- ===== src/Config.antt =====
-- deployment-core/pkg/deploycore/config/config.go: devopsellence.yml.
pub mod Types
pub mod Defaults
pub mod Resolve
pub mod Resolved
pub mod Validate
pub mod Store
