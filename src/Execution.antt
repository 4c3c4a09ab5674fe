-- ===== src/Execution.antt =====
-- The execution of the legs of a strategy: the requests of backend/backtesting/execution.py, and in
-- the modules below the fill model (fill_models.py), the fees (fees.py) and the coordinator. A policy
-- dictionary is the record of the keys that the code reads, with a missing entry for a missing key.
-- Amounts are as in Base/Value.antt; free-form metadata is left out.
pub mod Fills
pub mod Fees
pub mod Coordinator
mod FillBounds
mod Exposure
mod FeeBounds
mod Completion
mod Tests
use option_research_platform.Base.{Bool, String, Option, none, some}
use option_research_platform.Base.Int.{ℤ}
use option_research_platform.Base.Value.{Amount}
use option_research_platform.Base.Time.{Datetime}

pub data ExecutionSide : Type 0 where
  buy sell : ExecutionSide

-- `policy.get(key, default)` of a key that holds a float
abbrev pub entry : Amount → Option Amount → Amount
entry default none = default
entry default (some a) = a

pub record FillModelPolicy : Type 0 where
  pub mode : Option String
  pub name : Option String
  pub fill_ratio : Option Amount

pub record SlippagePolicy : Type 0 where
  pub fixed_per_contract : Option Amount
  pub percent_of_price : Option Amount
  pub spread_width_multiplier : Option Amount
  pub volatility_sensitivity : Option Amount
  pub liquidity_sensitivity : Option Amount

pub record CommissionPolicy : Type 0 where
  pub per_contract : Option Amount
  pub per_order : Option Amount
  pub stock_commission : Option Amount
  pub minimum_ticket : Option Amount
  pub maximum_fee_cap : Option Amount
  pub minimum_fee_cap : Option Amount
  pub exercise_fee : Option Amount
  pub assignment_fee : Option Amount

pub record ExchangeFeePolicy : Type 0 where
  pub exchange_fee : Option Amount
  pub regulatory_fee : Option Amount
  pub clearing_fee : Option Amount

-- What the execution reads of a request; the delay is counted in microseconds.
pub record ExecutionRequest : Type 0 where
  pub strategy_id : String
  pub position_id : String
  pub leg_id : String
  pub contract_identifier : String
  pub side : ExecutionSide
  pub quantity : ℤ
  pub requested_timestamp : Datetime
  pub execution_delay : Option ℤ
  pub fill_model_policy : FillModelPolicy
  pub slippage_policy : SlippagePolicy
  pub commission_policy : CommissionPolicy
  pub exchange_fee_policy : ExchangeFeePolicy
  pub minimum_fill_quantity : ℤ
  pub all_or_none_research : Bool
