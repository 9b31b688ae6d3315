-- ===== src/DiskCare.antt =====
-- agent/internal/diskcare/diskcare.go: the node-local cleanup of images.
pub mod Store
pub mod Retention
pub mod Planning
pub mod Run
