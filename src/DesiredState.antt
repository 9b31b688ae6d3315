-- ===== src/DesiredState.antt =====
-- agent/internal/desiredstate: the desired state that the agent receives, its validation, and the
-- names that are made from it.
pub mod Types
pub mod Names
pub mod Runtime
pub mod Validate
