-- ===== src/Solo.antt =====
-- cli/internal/solo: the state of the command line in solo mode.
pub mod Types
pub mod Keys
pub mod Nodes
pub mod Attachments
pub mod Releases
pub mod Secrets
pub mod Snapshot
pub mod Normalize
pub mod Store
