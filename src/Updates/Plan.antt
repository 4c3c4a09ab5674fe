-- ===== src/Updates/Plan.antt =====
-- `plan_incremental_update` of backend/data/update/planner.py as a whole.
