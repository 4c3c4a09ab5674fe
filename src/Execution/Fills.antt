-- ===== src/Execution/Fills.antt =====
-- `ResearchFillModelEngine.fill` of backend/backtesting/fill_models.py.
use text.Mathlib.Text.{◌==◌ as str_eq}
use option_research_platform.Base.{
  not, String, Option, none, some, List, [], ◌∷◌, ◌*◌, if◌then◌else◌, ◌&&◌, ◌||◌,
}
use option_research_platform.Base.Int.{
  ℤ, pos, ◌+ℤ◌, ◌-ℤ◌, max_ℤ, min_ℤ, abs_ℤ, neg, leb_ℤ, ltb_ℤ, eqb_ℤ,
}
use option_research_platform.Base.Value.{Amount, times, half, over, places}
use option_research_platform.Base.Time.{Datetime}
use option_research_platform.Quotes.{Quote, QuoteSelectionResult}
use option_research_platform.Execution.{ExecutionSide, buy, sell, ExecutionRequest, entry}

pub record FillModelResult : Type 0 where
  pub requested_quantity : ℤ
  pub filled_quantity : ℤ
  pub remaining_quantity : ℤ
  pub fill_price : Option Amount
  pub fill_timestamp : Option Datetime
  pub fill_model : String
  pub slippage : Amount
  pub spread_capture : Option Amount
  pub quote_quality : Amount
  pub warnings : List String
  pub failure_reason : Option String

-- The two defaults of the engine.
pub record FillEngine : Type 0 where
  pub default_vol_sensitivity : Amount
  pub default_liquidity_sensitivity : Amount

-- A result without a fill.
abbrev pub no_fill : ExecutionRequest → String → Option Datetime → String → String → FillModelResult
no_fill request model timestamp warning reason = record {
  requested_quantity = request.quantity;
  filled_quantity = pos 0;
  remaining_quantity = request.quantity;
  fill_price = none;
  fill_timestamp = timestamp;
  fill_model = model;
  slippage = pos 0;
  spread_capture = none;
  quote_quality = pos 0;
  warnings = warning ∷ [];
  failure_reason = some reason;
}

-- `float(value or default)`: zero counts as missing.
abbrev pub nonzero_or : Amount → Option Amount → Amount
nonzero_or default none = default
nonzero_or default (some a) = if eqb_ℤ a (pos 0) then default else a

abbrev pub key_or : Option Amount → Option (Option Amount) → Option Amount
key_or default none = default
key_or default (some v) = v

abbrev pub row_volatility : Quote → Amount
row_volatility q = nonzero_or (pos 0) (key_or (key_or (some (pos 0)) q.implied_volatility) q.iv)

abbrev pub row_liquidity : Quote → Amount
row_liquidity q = nonzero_or (pos places) q.liquidity_score

unfoldable pub slippage_of : FillEngine → ExecutionRequest → Quote → Amount → Amount → Amount
unfolding times
slippage_of engine request quote spread price =
    let p = request.slippage_policy in
    entry (pos 0) p.fixed_per_contract
    +ℤ times (entry (pos 0) p.percent_of_price) price
    +ℤ times (entry (pos 0) p.spread_width_multiplier) spread
    +ℤ times (entry engine.default_vol_sensitivity p.volatility_sensitivity) (row_volatility quote)
    +ℤ times (entry engine.default_liquidity_sensitivity p.liquidity_sensitivity)
        (max_ℤ (pos 0) (pos places -ℤ row_liquidity quote))

-- `slippage if side == "buy" else -slippage`
abbrev pub against : ExecutionSide → Amount → Amount
against buy slippage = slippage
against sell slippage = neg slippage

-- `int(requested_qty * max(0.0, min(1.0, fill_ratio)))`
abbrev pub ratio_fill : ExecutionRequest → ℤ
ratio_fill r =
    times (max_ℤ (pos 0) (min_ℤ (pos places) (entry (pos places) r.fill_model_policy.fill_ratio)))
      (max_ℤ (pos 0) r.quantity)

abbrev pub minimum_fill : ExecutionRequest → ℤ → ℤ
minimum_fill r filled =
    if not (eqb_ℤ filled (pos 0)) && ltb_ℤ filled (max_ℤ (pos 0) r.minimum_fill_quantity)
    then pos 0
    else filled

abbrev pub all_or_none : ExecutionRequest → ℤ → ℤ
all_or_none r filled =
    if r.all_or_none_research
      && not (eqb_ℤ filled (pos 0) || eqb_ℤ filled (max_ℤ (pos 0) r.quantity))
    then pos 0
    else filled

unfoldable pub filled_of : ExecutionRequest → String → ℤ
unfolding times
filled_of r mode =
    if str_eq mode "no_fill" then pos 0 else all_or_none r (minimum_fill r (ratio_fill r))

abbrev pub reason_of : String → ℤ → Option String
reason_of mode filled =
    if str_eq mode "no_fill"
    then some "policy_no_fill"
    else if eqb_ℤ filled (pos 0)
    then some "insufficient_liquidity"
    else none

-- Ten minutes, in microseconds.
abbrev pub stale_span : ℤ
stale_span = pos (600 * 1000000)

abbrev pub or_none_zero : Option ℤ → ℤ
or_none_zero none = pos 0
or_none_zero (some n) = n

-- The part of `fill` behind the two early returns.
unfoldable pub fill_at :
    FillEngine → ExecutionRequest → String → QuoteSelectionResult → Quote → Amount → FillModelResult
unfolding filled_of slippage_of over
fill_at engine r mode selection quote price =
    let spread = or_none_zero selection.spread_width in
    let slippage = slippage_of engine r quote spread price in
    let filled = filled_of r mode in
    record {
      requested_quantity = max_ℤ (pos 0) r.quantity;
      filled_quantity = filled;
      remaining_quantity = max_ℤ (pos 0) (max_ℤ (pos 0) r.quantity -ℤ filled);
      fill_price =
          if ltb_ℤ (pos 0) filled
          then some (max_ℤ (pos 0) (price +ℤ against r.side slippage))
          else none;
      fill_timestamp = quote.timestamp;
      fill_model = mode;
      slippage = slippage;
      spread_capture = if leb_ℤ spread (pos 0) then none else some (half spread -ℤ abs_ℤ slippage);
      quote_quality =
          max_ℤ (pos 0)
            (pos places -ℤ min_ℤ (pos places) (over (or_none_zero selection.quote_age) stale_span));
      warnings = selection.quality_flags;
      failure_reason = reason_of mode filled;
    }

abbrev pub mode_of : ExecutionRequest → String → String
mode_of r policy_name = elim r.fill_model_policy.mode [ none ↦ policy_name | some m ↦ m ]

unfoldable pub fill :
    FillEngine → ExecutionRequest → Option Quote → QuoteSelectionResult → String → FillModelResult
unfolding fill_at
fill engine r none selection policy_name = no_fill r policy_name none "no_quote" "missing_quote"
fill engine r (some quote) selection policy_name = elim selection.selected_price [
  | none ↦ no_fill r (mode_of r policy_name) quote.timestamp "price_unavailable" "price_unavailable"
  | some price ↦ fill_at engine r (mode_of r policy_name) selection quote price
]
