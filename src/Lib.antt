-- ===== src/Lib.antt =====
-- Option Research Platform: the decision core of the backtester and of the account ledger.
--
-- A backtest replays the events of a historical clock to a strategy. The clock
-- (backend/backtesting/clock.py) turns trading sessions and recorded events into one ordered,
-- numbered stream. The lifecycle of a strategy is a state machine
-- (backend/backtesting/state_machine.py) whose transitions are gated by guards
-- (backend/backtesting/transition_guards.py). Strategies compete for capital before an arbitrator
-- (backend/backtesting/arbitration.py). An accepted order is executed leg by leg
-- (backend/backtesting/execution.py): a quote is selected as of the time of the request
-- (quote_selection.py), filled (fill_models.py) and charged (fees.py). An option that expires is
-- exercised, assigned or abandoned, and settled (settlement.py), and a position of several legs is
-- checked for its integrity (orchestration.py). The cash that moves is posted to the
-- ledger of the account (backend/portfolio/cash.py), whose state is reconciled
-- (backend/portfolio/reconciliation.py).
--
-- Beside the backtester stand the optimizer, whose walk-forward engine
-- (backend/optimization/walk_forward.py) divides a range of dates into training, validation and test
-- windows and whose parameter space (parameter_space.py) is expanded into candidates,
-- whose Pareto engine (pareto.py) compares evaluated candidates, and the historical data:
-- the planner of updates (backend/data/update/planner.py) finds the days that are not yet cached,
-- the cache (backend/data/cache/manager.py) keeps payloads with a hash until they expire,
-- what providers report of one contract is merged by precedence (backend/data/reconciliation.py),
-- and the jobs of the providers are kept by the services of backend/data/provider_operations.py and
-- provider_runtime.py.
--
-- The modules:
--   Base         shared helpers: tests, lists, integers, orders, sorting, texts, times, results,
--                the values of dictionaries, and exact amounts
--   Lifecycle    States, Machine: state_machine.py (`StrategyStateMachine`, its table, its checks and
--                `transition`); Guards: transition_guards.py (`TransitionGuardLibrary.evaluate`)
--   Clock        Events: models.py; Build: clock.py (`HistoricalEventClock.build`)
--   Arbitration  arbitration.py (`CrossStrategyArbitrator.decide`)
--   Quotes       quote_selection.py (`QuoteSelector.select`); its rows are those that Execution reads
--   Execution    Fills: fill_models.py; Fees: fees.py; Coordinator: execution.py
--                (`MultiLegExecutionCoordinator.execute`), which composes Quotes, Fills and Fees
--   Settlement   Decisions, Postings: settlement.py (`SettlementEngine`) and `process_expiration` of
--                execution.py
--   Orchestration  orchestration.py (`MultiLegOrchestrator.integrity_failures`,
--                `orchestrate_expiration`); Fills: its plans of entries, partial fills and rolls
--   Ledger       cash.py (`CashLedgerEngine`) on accounts.py; Reconciliation: reconciliation.py
--                (`AccountReconciliationEngine.verify`)
--   WalkForward  walk_forward.py (`WalkForwardEngine.generate_splits`)
--   ParameterSpace  parameter_space.py (`ParameterSpaceGenerator.generate_exhaustive`)
--   Pareto       pareto.py (`ParetoEngine.extract_front`)
--   Updates      planner.py (`plan_incremental_update`)
--   Cache        manager.py (`CacheManager`)
--   Merging      data/reconciliation.py (`reconcile`)
--   Providers    Jobs: provider_operations.py (`ProviderOperationsService`); Runtime: provider_runtime.py
--                (`NetworkPolicy`, `SchedulerService`, `WorkerLease`, `AlertService`)
-- The other modules below these prove the results, and each module Tests runs the code on concrete
-- inputs.
--
-- An object that a method changes is a state that is passed on, and what was written before a raise
-- stays written; an exception is a value. A dictionary is the record of the keys that the code reads,
-- with a missing entry for a missing key, or an association list. A sort is stable, by a total
-- preorder of the keys. A time is a clock reading and an offset in microseconds; a naive one is read
-- as UTC, as the code does; the cache keeps it apart, since it compares without reading it so. Floats are exact decimals counted in units of 10^-8, the resolution to
-- which the program rounds, and a product or a quotient is cut off there; rounding errors below it,
-- infinities and NaN are not modelled. Integers are unbounded, as in Python. A loop over a
-- list is a structural recursion over it, which needs no fuel. The one `while True` of the code, in
-- generate_splits, takes fuel: one round for each day between the dates, and one more, is enough in
-- rolling mode, since every round moves the first day; in the other modes, where the same split comes
-- back, one for each day that is left of the calendar, since the cursor leaves it.
--
-- Parameters stand for code of the standard library: the digests of `hashlib.sha256`, the text of
-- `isoformat`, the canonical text of `json.dumps`, the path of
-- a cache file, the numbers of texts, the first draw of `Random(seed)`, the rounding to six places, and,
-- in Merging, the values of the fields and the operations on floats.
--
-- Not modelled: free-form metadata and diagnostics, the checksums of reports, pricing, Greeks and
-- implied volatility (floating-point numerics), research, the searches of the optimizer, the database,
-- the clients of the data vendors, the consensus of three providers, the API and the front end.
pub mod Base
pub mod Lifecycle
pub mod Merging
pub mod Clock
pub mod Arbitration
pub mod Quotes
pub mod Settlement
pub mod Ledger
pub mod Execution
pub mod Orchestration
pub mod Updates
pub mod WalkForward
pub mod Pareto
pub mod Providers
pub mod Cache
pub mod ParameterSpace
