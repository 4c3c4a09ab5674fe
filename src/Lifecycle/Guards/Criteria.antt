-- ===== src/Lifecycle/Guards/Criteria.antt =====
-- What each guard of backend/backtesting/transition_guards.py is to find out, apart from its handler.
use option_research_platform.Base.{true, false, String, Option, none, some, ◌≡◌, ◌⊎◌}
use option_research_platform.Base.Value.{Context, flag, int, get_default, truthy, to_int}
use option_research_platform.Base.Int.{ℤ, pos, ◌≤ℤ◌, ◌<ℤ◌}
use option_research_platform.Lifecycle.States.{
  GuardName, data_available, market_open, quote_freshness, liquidity_threshold, bid_ask_width,
  capital_available, strategy_validity, leg_compatibility, expiration_ordering,
  exercise_style_compatibility, minimum_quality_score, no_conflicting_lifecycle_action,
  no_duplicate_order_intent, no_look_ahead_compliance, maximum_open_positions,
  event_risk_restrictions, earnings_window_restrictions, corporate_action_restrictions,
}
use option_research_platform.Lifecycle.Guards.{number_of}

-- What a guard asks of the context, which the guard's handler is to find out.
pub data Criterion : Type 0 where
  holds : String → Criterion
  at_least : String → String → Criterion
  at_most : String → String → Criterion
  below : String → String → Criterion

abbrev pub criterion : GuardName → Criterion
criterion data_available = holds "data_available"
criterion market_open = holds "market_open"
criterion quote_freshness = at_most "quote_age_seconds" "max_quote_age_seconds"
criterion liquidity_threshold = at_least "liquidity_score" "minimum_liquidity_score"
criterion bid_ask_width = at_most "bid_ask_width" "maximum_bid_ask_width"
criterion capital_available = at_least "available_capital" "required_capital"
criterion strategy_validity = holds "strategy_valid"
criterion leg_compatibility = holds "leg_compatible"
criterion expiration_ordering = holds "expiration_order_valid"
criterion exercise_style_compatibility = holds "exercise_style_compatible"
criterion minimum_quality_score = at_least "quality_score" "minimum_quality_score"
criterion no_conflicting_lifecycle_action = holds "no_conflicting_lifecycle_action"
criterion no_duplicate_order_intent = holds "no_duplicate_order_intent"
criterion no_look_ahead_compliance = holds "no_look_ahead_compliant"
criterion maximum_open_positions = below "open_positions" "maximum_open_positions"
criterion event_risk_restrictions = holds "event_risk_allowed"
criterion earnings_window_restrictions = holds "earnings_window_allowed"
criterion corporate_action_restrictions = holds "corporate_action_allowed"

-- The reason of a refusal.
abbrev pub refusal : GuardName → String
refusal data_available = "missing_data"
refusal market_open = "market_closed"
refusal quote_freshness = "stale_quote"
refusal liquidity_threshold = "liquidity_below_threshold"
refusal bid_ask_width = "spread_too_wide"
refusal capital_available = "insufficient_capital"
refusal strategy_validity = "strategy_invalid"
refusal leg_compatibility = "leg_incompatible"
refusal expiration_ordering = "expiration_order_invalid"
refusal exercise_style_compatibility = "exercise_style_incompatible"
refusal minimum_quality_score = "quality_below_threshold"
refusal no_conflicting_lifecycle_action = "conflicting_lifecycle_action"
refusal no_duplicate_order_intent = "duplicate_order_intent"
refusal no_look_ahead_compliance = "look_ahead_violation"
refusal maximum_open_positions = "maximum_open_positions_reached"
refusal event_risk_restrictions = "event_risk_restricted"
refusal earnings_window_restrictions = "earnings_window_restricted"
refusal corporate_action_restrictions = "corporate_action_restricted"

-- Two numbers that are there, the first not above the second, or below it.
abbrev pub Ordered : Option ℤ → Option ℤ → Type 0
Ordered (some a) (some b) = a ≤ℤ b
Ordered (some a) none = ⊥
Ordered none y = ⊥

abbrev pub Before : Option ℤ → Option ℤ → Type 0
Before (some a) (some b) = a <ℤ b
Before (some a) none = ⊥
Before none y = ⊥

-- `int(context.get(key, 0))`
abbrev pub count_of : String → Context → Option ℤ
count_of key context = to_int (get_default key (int (pos 0)) context)

abbrev pub Meets : Criterion → Context → Type 0
Meets (holds key) ctx = truthy (get_default key (flag false) ctx) ≡ true
Meets (at_least a b) ctx = Ordered (number_of b ctx) (number_of a ctx)
Meets (at_most a b) ctx = Ordered (number_of a ctx) (number_of b ctx)
Meets (below a b) ctx = Before (count_of a ctx) (count_of b ctx)

-- A number is missing that the criterion compares.
abbrev pub IsUnreadable : Criterion → Context → Type 0
IsUnreadable (holds key) ctx = ⊥
IsUnreadable (at_least a b) ctx = (number_of a ctx ≡ none) ⊎ (number_of b ctx ≡ none)
IsUnreadable (at_most a b) ctx = (number_of a ctx ≡ none) ⊎ (number_of b ctx ≡ none)
IsUnreadable (below a b) ctx = (count_of a ctx ≡ none) ⊎ (count_of b ctx ≡ none)
