-- ===== src/Stored.antt =====
-- agent/internal: what the agent keeps in files, in lifecycle, desiredstatecache and fileaccess.
pub mod Files
pub mod Lifecycle
pub mod Cache
pub mod Override
pub mod Fetch
