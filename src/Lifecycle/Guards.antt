-- ===== src/Lifecycle/Guards.antt =====
-- The guard library, backend/backtesting/transition_guards.py. `none` stands for the TypeError
-- that `float(None)` and `int(None)` raise.
pub mod Criteria
pub mod Laws
use option_research_platform.Base.{
  Bool, true, false, String, Option, none, some, List, [], ◌∷◌, if◌then◌else◌,
}
use option_research_platform.Base.Int.{ℤ, pos, leb_ℤ, ltb_ℤ}
use option_research_platform.Base.Value.{
  Value, null, flag, int, float, Context, Amount, get_default, truthy, to_float, to_int, get,
}
use option_research_platform.Base.Options.{◌>>=◌}
use option_research_platform.Lifecycle.States.{
  GuardName, data_available, market_open, quote_freshness, liquidity_threshold, bid_ask_width,
  capital_available, strategy_validity, leg_compatibility, expiration_ordering,
  exercise_style_compatibility, minimum_quality_score, no_conflicting_lifecycle_action,
  no_duplicate_order_intent, no_look_ahead_compliance, maximum_open_positions,
  event_risk_restrictions, earnings_window_restrictions, corporate_action_restrictions,
}
use option_research_platform.Lifecycle.Machine.{GuardResult}

pub record GuardEvaluationRequest : Type 0 where
  pub guard : GuardName
  pub context : Context

abbrev pub Handler : Type 0
Handler = Context → Option GuardResult

unfoldable pub bool_guard : GuardName → String → String → Handler
unfolding get
bool_guard guard key reject_code context =
    let passed = truthy (get_default key (flag false) context) in
    some (record {
      guard = guard;
      passed = passed;
      reason_code = if passed then "ok" else reject_code;
      details = ("observed", get_default key null context) ∷ [];
    })

-- The result of a comparison of two numbers.
abbrev pub threshold_result : GuardName → String → Bool → Amount → Amount → GuardResult
threshold_result guard reject_code passed observed threshold = record {
  guard = guard;
  passed = passed;
  reason_code = if passed then "ok" else reject_code;
  details = ("observed", float observed) ∷ ("threshold", float threshold) ∷ [];
}

-- `float(context.get(key, 0.0))`
abbrev pub number_of : String → Context → Option Amount
number_of key context = to_float (get_default key (float (pos 0)) context)

unfoldable pub minimum_guard : GuardName → String → String → String → Handler
unfolding get
minimum_guard guard observed_key threshold_key reject_code context = do
  observed ← number_of observed_key context
  threshold ← number_of threshold_key context
  some (threshold_result guard reject_code (leb_ℤ threshold observed) observed threshold)

unfoldable pub maximum_guard : GuardName → String → String → String → Handler
unfolding get
maximum_guard guard observed_key threshold_key reject_code context = do
  observed ← number_of observed_key context
  threshold ← number_of threshold_key context
  some (threshold_result guard reject_code (leb_ℤ observed threshold) observed threshold)

abbrev pub open_positions_result : ℤ → ℤ → GuardResult
open_positions_result open_positions maximum =
    let passed = ltb_ℤ open_positions maximum in
    record {
      guard = maximum_open_positions;
      passed = passed;
      reason_code = if passed then "ok" else "maximum_open_positions_reached";
      details = ("open_positions", int open_positions) ∷ ("maximum", int maximum) ∷ [];
    }

unfoldable pub max_open_positions : Handler
unfolding get
max_open_positions context = do
  open_positions ← to_int (get_default "open_positions" (int (pos 0)) context)
  maximum ← to_int (get_default "maximum_open_positions" (int (pos 0)) context)
  some (open_positions_result open_positions maximum)

-- `_GUARD_HANDLERS`, with the handlers that only pass their names on written out.
unfoldable pub guard_handler : GuardName → Option Handler
unfolding bool_guard minimum_guard maximum_guard max_open_positions
guard_handler data_available = some (bool_guard data_available "data_available" "missing_data")
guard_handler market_open = some (bool_guard market_open "market_open" "market_closed")
guard_handler quote_freshness =
    some (maximum_guard quote_freshness "quote_age_seconds" "max_quote_age_seconds" "stale_quote")
guard_handler liquidity_threshold = some (
    minimum_guard liquidity_threshold "liquidity_score" "minimum_liquidity_score"
      "liquidity_below_threshold")
guard_handler bid_ask_width =
    some (maximum_guard bid_ask_width "bid_ask_width" "maximum_bid_ask_width" "spread_too_wide")
guard_handler capital_available =
    some (
      minimum_guard capital_available "available_capital" "required_capital" "insufficient_capital")
guard_handler strategy_validity =
    some (bool_guard strategy_validity "strategy_valid" "strategy_invalid")
guard_handler leg_compatibility =
    some (bool_guard leg_compatibility "leg_compatible" "leg_incompatible")
guard_handler expiration_ordering =
    some (bool_guard expiration_ordering "expiration_order_valid" "expiration_order_invalid")
guard_handler exercise_style_compatibility = some (
    bool_guard exercise_style_compatibility "exercise_style_compatible"
      "exercise_style_incompatible")
guard_handler minimum_quality_score = some (
    minimum_guard minimum_quality_score "quality_score" "minimum_quality_score"
      "quality_below_threshold")
guard_handler no_conflicting_lifecycle_action = some (
    bool_guard no_conflicting_lifecycle_action "no_conflicting_lifecycle_action"
      "conflicting_lifecycle_action")
guard_handler no_duplicate_order_intent =
    some (bool_guard no_duplicate_order_intent "no_duplicate_order_intent" "duplicate_order_intent")
guard_handler no_look_ahead_compliance =
    some (bool_guard no_look_ahead_compliance "no_look_ahead_compliant" "look_ahead_violation")
guard_handler maximum_open_positions = some max_open_positions
guard_handler event_risk_restrictions =
    some (bool_guard event_risk_restrictions "event_risk_allowed" "event_risk_restricted")
guard_handler earnings_window_restrictions =
    some (
      bool_guard earnings_window_restrictions "earnings_window_allowed"
        "earnings_window_restricted")
guard_handler corporate_action_restrictions = some (
    bool_guard corporate_action_restrictions "corporate_action_allowed"
      "corporate_action_restricted")

abbrev pub not_implemented : GuardName → GuardResult
not_implemented guard = record {
  guard = guard;
  passed = false;
  reason_code = "guard_not_implemented";
  details = [];
}

-- `TransitionGuardLibrary.evaluate`
unfoldable pub evaluate : GuardEvaluationRequest → Option GuardResult
unfolding guard_handler
evaluate request = elim (guard_handler request.guard) [
  | none ↦ some (not_implemented request.guard)
  | some handler ↦ handler request.context
]
