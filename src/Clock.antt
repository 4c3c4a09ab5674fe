-- ===== src/Clock.antt =====
-- The historical event clock, backend/backtesting/clock.py: its data, `build` and the steps that
-- it takes, the removal of duplicates, and the stream that comes out.
pub mod Events
pub mod Build
pub mod Keys
pub mod Duplicates
pub mod Sessions
pub mod Stream
mod Tests
