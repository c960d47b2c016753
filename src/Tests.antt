-- ===== src/Tests.antt =====
-- Runs of the model on small inputs.
mod Fixtures
mod Config
mod Incremental
mod Create
mod Churn
mod Hooks
mod Jobs
mod Metrics
mod Merge
mod Sequence
mod Waiters
mod Kubevirt
