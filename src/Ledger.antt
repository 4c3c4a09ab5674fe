-- ===== src/Ledger.antt =====
-- The cash ledger of an account, backend/portfolio/cash.py, on the configuration and the state of
-- backend/portfolio/accounts.py. Amounts are exact with eight places, so that `round(x, 8)` keeps
-- them (Base/Value.antt). Free-form metadata is left out.
pub mod Reconciliation
mod Sums
mod DueDates
mod Audit
mod Tests
use option_research_platform.Base.{Bool, true, false, String, Option, List, [], ◌∷◌, if◌then◌else◌}
use option_research_platform.Base.Int.{ℤ, pos, ◌+ℤ◌, ◌-ℤ◌, ◌*ℤ◌, eqb_ℤ, leb_ℤ}
use option_research_platform.Base.Value.{Amount, over}
use option_research_platform.Base.Time.{
  Datetime, ensure_aware, add_micros, micros_per_day, time_lt, time_le,
}

pub data CashEventType : Type 0 where
  premium_received premium_paid stock_purchase stock_sale exercise assignment dividend fee
        commission borrow_charge interest collateral reservation release liquidation :
      CashEventType

pub record SettlementTiming : Type 0 where
  pub equity_trade_days : ℤ
  pub option_trade_days : ℤ
  pub exercise_days : ℤ
  pub assignment_days : ℤ
  pub cash_settled_option_days : ℤ
  pub dividend_days : ℤ
  pub fee_days : ℤ
  pub interest_days : ℤ
  pub borrow_days : ℤ

pub record CashPosting : Type 0 where
  pub posting_id : String
  pub event_type : CashEventType
  pub amount : Amount
  pub trade_timestamp : Datetime
  pub effective_timestamp : Datetime
  pub settlement_timestamp : Datetime
  pub settled_delta : Amount
  pub unsettled_delta : Amount
  pub reserved_delta : Amount
  pub collateral_delta : Amount
  pub strategy_id : Option String
  pub position_id : Option String

-- The arguments of `post`.
pub record CashEvent : Type 0 where
  pub posting_id : String
  pub event_type : CashEventType
  pub amount : Amount
  pub trade_timestamp : Datetime
  pub strategy_id : Option String
  pub position_id : Option String

-- `_lag_days`, with 0 for a type that its mapping does not hold
unfoldable pub lag_days : SettlementTiming → CashEventType → ℤ
lag_days t stock_purchase = t.equity_trade_days
lag_days t stock_sale = t.equity_trade_days
lag_days t premium_received = t.option_trade_days
lag_days t premium_paid = t.option_trade_days
lag_days t exercise = t.exercise_days
lag_days t assignment = t.assignment_days
lag_days t dividend = t.dividend_days
lag_days t fee = t.fee_days
lag_days t commission = t.fee_days
lag_days t interest = t.interest_days
lag_days t borrow_charge = t.borrow_days
lag_days t liquidation = t.equity_trade_days
lag_days t collateral = pos 0
lag_days t reservation = pos 0
lag_days t release = pos 0

unfoldable pub post : SettlementTiming → CashEvent → CashPosting
post timing e =
    let trade_ts = ensure_aware e.trade_timestamp in
    let lag = lag_days timing e.event_type in
    let immediate = eqb_ℤ lag (pos 0) in
    record {
      posting_id = e.posting_id;
      event_type = e.event_type;
      amount = e.amount;
      trade_timestamp = trade_ts;
      effective_timestamp = trade_ts;
      settlement_timestamp =
          if immediate then trade_ts else add_micros trade_ts (lag *ℤ pos micros_per_day);
      settled_delta = if immediate then e.amount else pos 0;
      unsettled_delta = if immediate then pos 0 else e.amount;
      reserved_delta = pos 0;
      collateral_delta = pos 0;
      strategy_id = e.strategy_id;
      position_id = e.position_id;
    }

-- The amount is reserved, or held as collateral.
unfoldable pub reserve :
    String → Amount → Datetime → Option String → Option String → Bool → CashPosting
reserve posting_id amount timestamp strategy_id position_id as_collateral = record {
  posting_id = posting_id;
  event_type = if as_collateral then collateral else reservation;
  amount = pos 0;
  trade_timestamp = ensure_aware timestamp;
  effective_timestamp = ensure_aware timestamp;
  settlement_timestamp = ensure_aware timestamp;
  settled_delta = pos 0;
  unsettled_delta = pos 0;
  reserved_delta = if as_collateral then pos 0 else amount;
  collateral_delta = if as_collateral then amount else pos 0;
  strategy_id = strategy_id;
  position_id = position_id;
}

-- What the ledger reads of the configuration.
pub record AccountConfiguration : Type 0 where
  pub account_id : String
  pub base_currency : String
  pub settled_cash : Amount
  pub unsettled_cash : Amount

pub record CashBalanceSnapshot : Type 0 where
  pub as_of : Datetime
  pub settled_cash : Amount
  pub unsettled_cash : Amount
  pub reserved_cash : Amount
  pub collateral_cash : Amount
  pub free_cash : Amount
  pub net_cash : Amount

-- The four sums of the loop of `snapshot`.
pub record Totals : Type 0 where
  pub settled : Amount
  pub unsettled : Amount
  pub reserved : Amount
  pub held : Amount

unfoldable pub tally_one : Datetime → CashPosting → Totals → Totals
tally_one as_of p t =
    if time_lt as_of p.effective_timestamp
    then t
    else if time_le p.settlement_timestamp as_of
    then record {
      settled = t.settled +ℤ (p.settled_delta +ℤ p.unsettled_delta);
      unsettled = t.unsettled;
      reserved = t.reserved +ℤ p.reserved_delta;
      held = t.held +ℤ p.collateral_delta;
    }
    else record {
      settled = t.settled +ℤ p.settled_delta;
      unsettled = t.unsettled +ℤ p.unsettled_delta;
      reserved = t.reserved +ℤ p.reserved_delta;
      held = t.held +ℤ p.collateral_delta;
    }

unfoldable pub tally : Datetime → List CashPosting → Totals → Totals
tally as_of [] t = t
tally as_of (p ∷ rest) t = tally as_of rest (tally_one as_of p t)

abbrev pub opening : AccountConfiguration → Totals
opening c = record {
  settled = c.settled_cash;
  unsettled = c.unsettled_cash;
  reserved = pos 0;
  held = pos 0;
}

abbrev pub balance_of : Datetime → Totals → CashBalanceSnapshot
balance_of as_of t = record {
  as_of = as_of;
  settled_cash = t.settled;
  unsettled_cash = t.unsettled;
  reserved_cash = t.reserved;
  collateral_cash = t.held;
  free_cash = t.settled -ℤ t.reserved -ℤ t.held;
  net_cash = t.settled +ℤ t.unsettled;
}

unfoldable pub snapshot : AccountConfiguration → List CashPosting → Datetime → CashBalanceSnapshot
unfolding tally
snapshot c postings as_of =
    balance_of (ensure_aware as_of) (tally (ensure_aware as_of) postings (opening c))

pub record AccountState : Type 0 where
  pub account_id : String
  pub base_currency : String
  pub settled_cash : Amount
  pub unsettled_cash : Amount
  pub reserved_cash : Amount
  pub collateral_cash : Amount
  pub free_cash : Amount
  pub buying_power : Amount
  pub initial_requirement : Amount
  pub maintenance_requirement : Amount
  pub excess_liquidity : Amount
  pub cushion : Amount

unfoldable pub account_state :
    AccountConfiguration → CashBalanceSnapshot → Amount → Amount → Amount → AccountState
unfolding over
account_state c balance buying_power initial maintenance =
    let excess = balance.net_cash -ℤ maintenance in
    record {
      account_id = c.account_id;
      base_currency = c.base_currency;
      settled_cash = balance.settled_cash;
      unsettled_cash = balance.unsettled_cash;
      reserved_cash = balance.reserved_cash;
      collateral_cash = balance.collateral_cash;
      free_cash = balance.free_cash;
      buying_power = buying_power;
      initial_requirement = initial;
      maintenance_requirement = maintenance;
      excess_liquidity = excess;
      cushion = if leb_ℤ maintenance (pos 0) then pos 0 else over excess maintenance;
    }
