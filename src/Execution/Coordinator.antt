-- ===== src/Execution/Coordinator.antt =====
-- `MultiLegExecutionCoordinator.execute` of backend/backtesting/execution.py. The Greeks of an attempt,
-- fixed multiples of its filled quantity, are left out.
use text.Mathlib.Text.{◌==◌ as str_eq}
use option_research_platform.Base.{
  ℕ, suc, Bool, not, String, Option, none, some, List, [], ◌∷◌, if◌then◌else◌, ◌&&◌, length,
}
use option_research_platform.Base.Int.{ℤ, pos, ◌+ℤ◌, ◌*ℤ◌, max_ℤ, leb_ℤ, ltb_ℤ}
use option_research_platform.Base.Value.{Amount, over, places}
use option_research_platform.Base.Order.{Preorder, by_key, lexical, nat_order}
use option_research_platform.Base.Text.{text_order}
use option_research_platform.Base.Sort.{sorted}
use option_research_platform.Base.Time.{Datetime, ensure_aware, time_order, elapsed}
use option_research_platform.Quotes.{
  Quote, QuoteSelectionPolicy, QuoteSelectionResult, select_quote,
}
use option_research_platform.Execution.{ExecutionRequest, entry}
use option_research_platform.Execution.Fills.{FillModelResult, FillEngine, fill}
use option_research_platform.Execution.Fees.{FeeItem, calculate}

pub record FillAttempt : Type 0 where
  pub request : ExecutionRequest
  pub selection : QuoteSelectionResult
  pub fill : FillModelResult
  pub fees : List FeeItem
  pub residual_notional : Amount

pub record MultiLegExecutionResult : Type 0 where
  pub strategy_id : String
  pub position_id : String
  pub request_count : ℕ
  pub fills : List FillAttempt
  pub filled_ratio : Amount
  pub cancelled : Bool
  pub timed_out : Bool
  pub retry_eligible : Bool
  pub unfilled_contracts : ℤ
  pub unfilled_notional : Amount
  pub exposure_breached : Bool

-- The selector, the fill engine, and the arguments of `execute` that every leg shares.
pub record ExecutionPlan : Type 0 where
  pub stale_after : ℤ
  pub engine : FillEngine
  pub quotes_by_contract : List (String × List Quote)
  pub quote_policy : QuoteSelectionPolicy
  pub leg_priority : List String
  pub minimum_aggregate_fill_ratio : Amount
  pub timeout : ℤ
  pub started_at : Datetime
  pub now : Datetime
  pub maximum_legging_exposure : Amount

-- `leg_priority.index(leg_id)`, or the length
unfoldable pub priority : List String → String → ℕ
priority [] leg_id = 0
priority (label ∷ rest) leg_id =
    let later = priority rest leg_id in if str_eq label leg_id then 0 else suc later

abbrev pub quotes_of : List (String × List Quote) → String → List Quote
quotes_of [] contract = []
quotes_of ((name, quotes) ∷ rest) contract =
    let others = quotes_of rest contract in if str_eq name contract then quotes else others

abbrev pub leg_order : List String → Preorder ExecutionRequest
leg_order labels =
    lexical (by_key (λ r. priority labels r.leg_id) nat_order)
      (lexical (by_key (λ r. r.requested_timestamp) time_order) (by_key (λ r. r.leg_id) text_order))

abbrev pub name_or : String → Option String → String
name_or default none = default
name_or default (some s) = s

-- `remaining_quantity * (fill_price or 0.0)`
abbrev pub notional : FillModelResult → Amount
notional f = f.remaining_quantity *ℤ entry (pos 0) f.fill_price

-- One turn of the loop.
unfoldable pub attempt : ExecutionPlan → ExecutionRequest → FillAttempt
unfolding fill calculate select_quote
attempt plan r =
    let selection =
      select_quote plan.stale_after r.requested_timestamp
        (quotes_of plan.quotes_by_contract r.contract_identifier) plan.quote_policy
        (entry (pos 0) r.execution_delay) in
    let filled =
      fill plan.engine r selection.selected_quote selection
        (name_or "midpoint" r.fill_model_policy.name) in
    record {
      request = r;
      selection = selection;
      fill = filled;
      fees = calculate r filled.filled_quantity;
      residual_notional = notional filled;
    }

abbrev pub attempts_of : ExecutionPlan → List ExecutionRequest → List FillAttempt
attempts_of plan [] = []
attempts_of plan (r ∷ rest) = attempt plan r ∷ attempts_of plan rest

module _ {A : Type 0} where
  -- `sum(f(x) for x in xs)`
  abbrev pub sum_by : (A → ℤ) → List A → ℤ
  sum_by f [] = pos 0
  sum_by f (x ∷ xs) = f x +ℤ sum_by f xs

abbrev pub first_text : (ExecutionRequest → String) → List ExecutionRequest → String
first_text f [] = ""
first_text f (r ∷ rest) = f r

unfoldable pub execute : ExecutionPlan → List ExecutionRequest → MultiLegExecutionResult
unfolding attempt priority over
execute plan requests =
    let ordered = sorted (leg_order plan.leg_priority) requests in
    let attempts = attempts_of plan ordered in
    let total = max_ℤ (pos 1) (sum_by (λ r. max_ℤ (pos 0) r.quantity) ordered) in
    let ratio = over (sum_by (λ a. a.fill.filled_quantity) attempts) total in
    let waited = max_ℤ (pos 0) (elapsed (ensure_aware plan.now) (ensure_aware plan.started_at)) in
    let timed_out = leb_ℤ plan.timeout waited in
    let cancelled = timed_out && ltb_ℤ ratio plan.minimum_aggregate_fill_ratio in
    let unfilled = sum_by (λ a. notional a.fill) attempts in
    record {
      strategy_id = first_text (λ r. r.strategy_id) ordered;
      position_id = first_text (λ r. r.position_id) ordered;
      request_count = length ordered;
      fills = attempts;
      filled_ratio = ratio;
      cancelled = cancelled;
      timed_out = timed_out;
      retry_eligible = ltb_ℤ ratio (pos places) && not cancelled;
      unfilled_contracts = sum_by (λ a. a.fill.remaining_quantity) attempts;
      unfilled_notional = unfilled;
      exposure_breached = ltb_ℤ plan.maximum_legging_exposure unfilled;
    }
