-- ===== src/Optimizer.antt =====
-- core/optimizer-runs: the economic kernel and the worker of optimizer-worker.ts, and the
-- repository of optimizer runs.
pub mod Numeric
pub mod Types
pub mod Policy
pub mod Evaluate
pub mod Repository
pub mod Documents
pub mod Worker
