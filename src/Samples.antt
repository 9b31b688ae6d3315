-- ===== src/Samples.antt =====
-- Concrete inputs at which the theorems apply.
pub mod Values
pub mod Releases
pub mod Rollbacks
pub mod Nodes
pub mod Disks
pub mod Documents
pub mod Plans
pub mod Configs
pub mod Solos
pub mod Statuses
pub mod Stores
