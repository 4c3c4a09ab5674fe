-- ===== src/Clock/Events.antt =====
-- The data of the event clock: the event types of backend/backtesting/models.py with the texts by
-- which they are compared and sorted, and its sessions, events and configuration.
use text.Mathlib.Text.{◌==◌ as str_eq}
use option_research_platform.Base.{Bool, String, List, ℕ}
use option_research_platform.Base.Int.{ℤ, pos}
use option_research_platform.Base.Time.{Datetime}

pub data EventType : Type 0 where
  session_open intraday quote underlying_price volatility_surface earnings dividend : EventType
  corporate_action option_expiration entry_evaluation management_evaluation : EventType
  exit_evaluation roll_evaluation fill_event risk_event earnings_announcement : EventType
  earnings_date_revision ex_dividend_date dividend_announcement dividend_revision : EventType
  special_dividend stock_split reverse_split symbol_change merger spin_off : EventType
  contract_adjustment liquidity_deterioration stale_data_threshold_breach market_halt : EventType
  trading_resumption pending_assignment_or_exercise portfolio_arbitration_decision : EventType
  end_of_backtest lifecycle_evaluation valuation session_close : EventType

-- `event_type.value`
abbrev pub event_value : EventType → String
event_value session_open = "session_open"
event_value intraday = "intraday"
event_value quote = "quote"
event_value underlying_price = "underlying_price"
event_value volatility_surface = "volatility_surface"
event_value earnings = "earnings"
event_value dividend = "dividend"
event_value corporate_action = "corporate_action"
event_value option_expiration = "option_expiration"
event_value entry_evaluation = "entry_evaluation"
event_value management_evaluation = "management_evaluation"
event_value exit_evaluation = "exit_evaluation"
event_value roll_evaluation = "roll_evaluation"
event_value fill_event = "fill_event"
event_value risk_event = "risk_event"
event_value earnings_announcement = "earnings_announcement"
event_value earnings_date_revision = "earnings_date_revision"
event_value ex_dividend_date = "ex_dividend_date"
event_value dividend_announcement = "dividend_announcement"
event_value dividend_revision = "dividend_revision"
event_value special_dividend = "special_dividend"
event_value stock_split = "stock_split"
event_value reverse_split = "reverse_split"
event_value symbol_change = "symbol_change"
event_value merger = "merger"
event_value spin_off = "spin_off"
event_value contract_adjustment = "contract_adjustment"
event_value liquidity_deterioration = "liquidity_deterioration"
event_value stale_data_threshold_breach = "stale_data_threshold_breach"
event_value market_halt = "market_halt"
event_value trading_resumption = "trading_resumption"
event_value pending_assignment_or_exercise = "pending_assignment_or_exercise"
event_value portfolio_arbitration_decision = "portfolio_arbitration_decision"
event_value end_of_backtest = "end_of_backtest"
event_value lifecycle_evaluation = "lifecycle_evaluation"
event_value valuation = "valuation"
event_value session_close = "session_close"

-- Members of a `StrEnum` are compared as texts.
abbrev pub event_type_eq : EventType → EventType → Bool
event_type_eq a b = str_eq (event_value a) (event_value b)

-- `EventPriority`, for the two events that the clock makes itself
abbrev pub session_open_priority : ℤ
session_open_priority = pos 20

abbrev pub session_close_priority : ℤ
session_close_priority = pos 110

pub data DuplicateEventPolicy : Type 0 where
  keep_first keep_last keep_all raise : DuplicateEventPolicy

pub data MissingSessionPolicy : Type 0 where
  skip raise : MissingSessionPolicy

-- A date is its ordinal number.
pub record TradingSession : Type 0 where
  pub trade_date : ℕ
  pub open_timestamp : Datetime
  pub close_timestamp : Datetime
  pub is_trading_day : Bool

pub record ClockEvent : Type 0 where
  pub timestamp : Datetime
  pub event_type : EventType
  pub priority : ℤ
  pub sequence_hint : ℤ
  pub payload : List (String × String)

pub record DeterministicEvent : Type 0 where
  pub event_id : String
  pub timestamp : Datetime
  pub event_type : EventType
  pub priority : ℤ
  pub sequence_number : ℕ
  pub payload : List (String × String)

pub record EventClockConfig : Type 0 where
  pub duplicate_event_policy : DuplicateEventPolicy
  pub missing_session_policy : MissingSessionPolicy
  pub event_priorities : List (EventType × ℤ)
