-- ===== src/Reconcile.antt =====
-- The agent's reconciliation: agent/internal/reconcile.
pub mod Status
