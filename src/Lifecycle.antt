-- ===== src/Lifecycle.antt =====
-- The strategy state machine, backend/backtesting/state_machine.py: the states and their table,
-- the machine, what its history always satisfies, and which states can follow which.
pub mod States
pub mod Machine
pub mod Guards
pub mod History
pub mod Paths
mod Tests
