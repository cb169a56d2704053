-- ===== src/Backtests.antt =====
-- Backtests: the replay of a commitment strategy over past months.
pub mod Replay
pub mod Repository
pub mod Artifact
pub mod Leakage
pub mod Savings
pub mod Totals
pub mod Worker
mod Tests
