-- ===== src/Settlement.antt =====
-- Expiration, exercise, assignment and settlement, backend/backtesting/settlement.py, and the
-- orchestration of an expiration in backend/backtesting/execution.py. Cash amounts are exact
-- (Base/Value.antt).
pub mod Decisions
pub mod Postings
pub mod Laws
mod Sides
mod Deliveries
pub mod Expiration
mod Tests
