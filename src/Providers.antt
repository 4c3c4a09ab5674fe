-- ===== src/Providers.antt =====
-- The operations of the data providers: jobs and checkpoints, backend/data/provider_operations.py,
-- and the controls at run time, backend/data/provider_runtime.py.
pub mod Jobs
pub mod Runtime
mod Consistency
mod History
mod Checkpoints
mod Claims
mod AlertLog
mod Tests
