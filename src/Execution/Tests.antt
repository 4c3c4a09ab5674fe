-- ===== src/Execution/Tests.antt =====
-- Runs of the execution, and each theorem at a concrete input.
use option_research_platform.Base.{
  ◌≡◌, refl, false, not, String, none, some, List, [], ◌∷◌, ℕ, ◌*◌, arith, ◌&&◌, All,
}
use option_research_platform.Base.Int.{pos, ◌+ℤ◌, ◌-ℤ◌, ◌*ℤ◌, ◌≤ℤ◌, ltb_ℤ, neg}
use option_research_platform.Base.Value.{Amount, places, times, truncate, over}
use option_research_platform.Base.Sort.{sorted}
use option_research_platform.Base.Time.{Datetime}
use option_research_platform.Quotes.{
  Quote, QuoteSelectionResult, midpoint, select_quote, choose, conclude,
}
use option_research_platform.Execution.{ExecutionRequest, buy}
use option_research_platform.Execution.Fills.{FillEngine, fill, fill_at, filled_of, slippage_of}
use option_research_platform.Execution.Fees.{commission_of}
use option_research_platform.Execution.Coordinator.{
  ExecutionPlan, execute, attempt, leg_order, sum_by, priority,
}
use option_research_platform.Execution.FillBounds.{KeepsBounds, fill_bounds}
use option_research_platform.Execution.Completion.{wanted, execute_completion}
use option_research_platform.Execution.Exposure.{IsUnfilled, nothing_filled_counts_nothing}

abbrev dollars : ℕ → Amount
dollars n = pos (n * places)

abbrev at_time : ℕ → Datetime
at_time n = record { wall = pos n; utcoffset = none }

abbrev quote : Quote
quote = record {
  timestamp = some (at_time 10);
  bid = some (dollars 2);
  ask = some (dollars 4);
  last = none;
  theoretical = none;
  iv = none;
  implied_volatility = none;
  liquidity_score = none;
  manifest = none;
  quality_flags = [];
}

-- A leg that may fill for three quarters, with a commission of 1 a contract from 2 to 5.
abbrev leg : String → ℕ → ExecutionRequest
leg name quantity = record {
  strategy_id = "strategy";
  position_id = "position";
  leg_id = name;
  contract_identifier = name;
  side = buy;
  quantity = pos quantity;
  requested_timestamp = at_time 20;
  execution_delay = none;
  fill_model_policy = record { mode = none; name = none; fill_ratio = some (pos 75000000) };
  slippage_policy = record {
    fixed_per_contract = some (dollars 1);
    percent_of_price = none;
    spread_width_multiplier = none;
    volatility_sensitivity = none;
    liquidity_sensitivity = none;
  };
  commission_policy = record {
    per_contract = some (dollars 1);
    per_order = none;
    stock_commission = none;
    minimum_ticket = some (dollars 2);
    maximum_fee_cap = some (dollars 5);
    minimum_fee_cap = none;
    exercise_fee = none;
    assignment_fee = none;
  };
  exchange_fee_policy = record { exchange_fee = none; regulatory_fee = none; clearing_fee = none };
  minimum_fill_quantity = pos 1;
  all_or_none_research = false;
}

abbrev engine : FillEngine
engine = record {
  default_vol_sensitivity = pos 2000000;
  default_liquidity_sensitivity = pos 5000000;
}

abbrev found : QuoteSelectionResult
found = record {
  selected_quote = some quote;
  selected_price = some (dollars 3);
  quote_age = some (pos 10);
  spread_width = some (dollars 2);
  quality_flags = [];
  stale_data = false;
  crossed_market = false;
  source_manifest = none;
}

-- Three quarters of five contracts are three; each costs the midpoint and the slippage.
run-fill :
    let f = fill engine (leg "near" 5) (some quote) found "midpoint" in
    (f.filled_quantity ≡ pos 3) × (f.remaining_quantity ≡ pos 2) × (f.fill_price ≡ some (dollars 4))
unfolding fill fill_at filled_of slippage_of times truncate over ◌*ℤ◌ ◌+ℤ◌ ◌-ℤ◌ neg
run-fill = (refl, refl, refl)

run-commission :
    (commission_of (leg "near" 5) (pos 1) ≡ dollars 2)
    × (commission_of (leg "near" 5) (pos 9) ≡ dollars 5)
unfolding commission_of ◌*ℤ◌ ◌+ℤ◌
run-commission = (refl, refl)

fill_bounds_example :
    KeepsBounds (leg "near" 5) (fill engine (leg "near" 5) (some quote) found "midpoint")
fill_bounds_example = fill_bounds engine (leg "near" 5) (some quote) found "midpoint" (omega arith)

-- The far leg comes first and has no quotes.
abbrev plan : ExecutionPlan
plan = record {
  stale_after = pos 100;
  engine = engine;
  quotes_by_contract = ("near", quote ∷ []) ∷ [];
  quote_policy = record {
    mode = "nearest_prior";
    price_selection = midpoint;
    through_spread_pct = pos 0;
    theoretical_fallback_enabled = false;
  };
  leg_priority = "far" ∷ "near" ∷ [];
  minimum_aggregate_fill_ratio = pos 50000000;
  timeout = pos 1000;
  started_at = at_time 0;
  now = at_time 500;
  maximum_legging_exposure = dollars 1;
}

abbrev legs : List ExecutionRequest
legs = leg "near" 5 ∷ leg "far" 1 ∷ []

wanted-legs : wanted (sorted (leg_order plan.leg_priority) legs) ≡ pos 6
unfolding priority ◌+ℤ◌ ◌-ℤ◌
wanted-legs = refl

execute_completion_example :
    let x = execute plan legs in
    (sum_by (λ a. a.fill.filled_quantity) x.fills +ℤ x.unfilled_contracts
      ≡ wanted (sorted (leg_order plan.leg_priority) legs))
    × (pos 0 ≤ℤ x.filled_ratio)
    × (x.filled_ratio ≤ℤ pos places)
    × (x.retry_eligible ≡ (ltb_ℤ (pos 0) x.unfilled_contracts && not x.cancelled))
execute_completion_example =
    execute_completion plan legs (omega arith, (omega arith, tt)) (rw wanted-legs (omega arith))

far-IsUnfilled : All IsUnfilled (execute plan (leg "far" 9 ∷ [])).fills
unfolding execute attempt fill select_quote choose conclude
far-IsUnfilled = (refl, tt)

nothing_filled_counts_nothing_example :
    ((execute plan (leg "far" 9 ∷ [])).unfilled_notional ≡ pos 0)
    × ((execute plan (leg "far" 9 ∷ [])).exposure_breached ≡ ltb_ℤ (dollars 1) (pos 0))
nothing_filled_counts_nothing_example =
    nothing_filled_counts_nothing plan (leg "far" 9 ∷ []) (omega arith, tt) far-IsUnfilled
