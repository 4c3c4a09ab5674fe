-- ===== src/Quotes/Prices.antt =====
-- The price that `select` reports (backend/backtesting/quote_selection.py): it stays within the
-- spread, and the theoretical fallback has none.
use option_research_platform.Base.{true, Option, none, some, List, ◌≡◌, refl, arith, ◌≢◌}
use option_research_platform.Base.Int.{ℤ, pos, ◌+ℤ◌, ◌-ℤ◌, ◌≤ℤ◌, int_laws}
use option_research_platform.Base.Value.{Amount, times, half_between, times_share, places}
use option_research_platform.Base.Time.{Datetime, ensure_aware}
use option_research_platform.Quotes.{
  Quote, QuotePriceSelection, bid, ask, midpoint, last, through_spread, QuoteSelectionPolicy,
  clamped_pct, price_by, theoretical_quote, conclude, report, policy_price, choose, delayed,
  select_quote,
}

-- A price between the two sides of a quote.
abbrev pub Within : Amount → Amount → Option Amount → Type 0
Within b a none = ⊥
Within b a (some p) = (b ≤ℤ p) × (p ≤ℤ a)

clamped_pct_bounds :
    (policy : QuoteSelectionPolicy)
    → (pos 0 ≤ℤ clamped_pct policy) × (clamped_pct policy ≤ℤ pos places)
clamped_pct_bounds policy = ground arith

through_spread_bounds :
    (policy : QuoteSelectionPolicy) (b a : Amount)
    → b ≤ℤ a
    → (b ≤ℤ b +ℤ times (clamped_pct policy) (a -ℤ b))
      × (b +ℤ times (clamped_pct policy) (a -ℤ b) ≤ℤ a)
through_spread_bounds policy b a h =
    let (low, high) = clamped_pct_bounds policy in
    let (nonneg, at_most) = times_share (clamped_pct policy) (a -ℤ b) low high (omega int_laws) in
    (omega int_laws, omega int_laws)

price_by_bounds :
    (p : QuotePriceSelection) (policy : QuoteSelectionPolicy) (row : Quote) (b a : Amount)
    → p ≢ last
    → row.bid ≡ some b
    → row.ask ≡ some a
    → pos 0 ≤ℤ b
    → b ≤ℤ a
    → Within b a (price_by p policy row)
price_by_bounds bid policy row b a n eb ea low h = rw eb (omega arith, h)
price_by_bounds ask policy row b a n eb ea low h = rw ea (h, omega arith)
price_by_bounds midpoint policy row b a n eb ea low h = rw (eb, ea) (half_between b a low h)
price_by_bounds last policy row b a n eb ea low h = absurd (n refl)
price_by_bounds through_spread policy row b a n eb ea low h =
    rw (eb, ea) (through_spread_bounds policy b a h)

-- For a quote whose sides are not negative and not crossed, every price selection but LAST gives
-- a price from the bid to the ask, whatever the percentage of the policy.
pub price_in_spread :
    (policy : QuoteSelectionPolicy) (row : Quote) (b a : Amount)
    → policy.price_selection ≢ last
    → row.bid ≡ some b
    → row.ask ≡ some a
    → pos 0 ≤ℤ b
    → b ≤ℤ a
    → Within b a (policy_price policy row)
unfolding policy_price
price_in_spread policy row b a not_last eb ea low h =
    price_by_bounds policy.price_selection policy row b a not_last eb ea low h

fallback_price :
    (p : QuotePriceSelection) (policy : QuoteSelectionPolicy) (t : Datetime)
    → price_by p policy (theoretical_quote t) ≡ none
fallback_price bid policy t = refl
fallback_price _ policy t = refl

-- Where no quote is found and the theoretical fallback is enabled, `select` reports the
-- theoretical quote, and no price under any price selection.
pub fallback_has_no_price :
    (stale_after : ℤ) (request : Datetime) (quotes : List Quote) (policy : QuoteSelectionPolicy)
    (delay : ℤ)
    → let delayed_ts = delayed (ensure_aware request) delay in
      let r = select_quote stale_after request quotes policy delay in
      policy.theoretical_fallback_enabled ≡ true
      → choose policy.mode (ensure_aware request) delayed_ts quotes ≡ none
      → (r.selected_quote ≡ some (theoretical_quote delayed_ts)) × (r.selected_price ≡ none)
unfolding select_quote conclude report policy_price
fallback_has_no_price stale_after request quotes policy delay on missing =
    rw (missing, on) (refl, fallback_price policy.price_selection _ _)
