-- ===== src/Quotes/Tests.antt =====
-- Runs of the quote selector, and each theorem at a concrete input.
use option_research_platform.Base.{
  ℕ, true, false, Bool, String, none, some, List, [], ◌∷◌, ◌≡◌, refl, arith,
}
use option_research_platform.Base.Int.{pos, ◌+ℤ◌, ◌-ℤ◌, ◌*ℤ◌}
use option_research_platform.Base.Value.{over}
use option_research_platform.Base.Time.{Datetime, ensure_aware, time_le, time_eq}
use option_research_platform.Quotes.{
  Quote, QuoteSelectionPolicy, QuotePriceSelection, midpoint, last, through_spread, row_time,
  choose, conclude, delayed, theoretical_quote, policy_price, select_quote,
}
use option_research_platform.Quotes.Visibility.{
  Chosen, not_later, later_or_same, earlier_or_same, select_never_looks_ahead, choose_by_time,
}
use option_research_platform.Quotes.Prices.{Within, price_in_spread, fallback_has_no_price}

abbrev at : ℕ → Datetime
at n = record { wall = pos n; utcoffset = none }

abbrev quote_at : ℕ → ℕ → ℕ → Quote
quote_at n b a = record {
  timestamp = some (at n);
  bid = some (pos b);
  ask = some (pos a);
  last = none;
  theoretical = none;
  iv = none;
  implied_volatility = none;
  liquidity_score = none;
  manifest = none;
  quality_flags = [];
}

abbrev quotes : List Quote
quotes = quote_at 300 10 14 ∷ quote_at 100 11 13 ∷ quote_at 200 12 16 ∷ []

abbrev policy : String → QuotePriceSelection → Bool → QuoteSelectionPolicy
policy mode selection fallback = record {
  mode = mode;
  price_selection = selection;
  through_spread_pct = pos 50000000;
  theoretical_fallback_enabled = fallback;
}

-- At 250 the quote of 200 is the latest that is known; its midpoint is 14.
run-nearest_prior :
    ((select_quote
        (pos 120)
        (at 250)
        quotes
        (policy "nearest_prior" midpoint false)
        (pos 0)).selected_price
      ≡ some (pos 14))
    × ((select_quote
          (pos 120)
          (at 250)
          quotes
          (policy "nearest_prior" midpoint false)
          (pos 0)).quote_age
        ≡ some (pos 50))
unfolding select_quote conclude choose delayed ensure_aware over ◌+ℤ◌ ◌-ℤ◌ ◌*ℤ◌
run-nearest_prior = (refl, refl)

select_never_looks_ahead_example :
    Chosen
      (not_later (ensure_aware (at 250)))
      later_or_same
      quotes
      (select_quote
        (pos 120)
        (at 250)
        quotes
        (policy "nearest_prior" midpoint false)
        (pos 0)).selected_quote
select_never_looks_ahead_example =
    select_never_looks_ahead (pos 120) (at 250) quotes (policy "nearest_prior" midpoint false)
      (pos 0) refl refl refl

choose_by_time_example :
    Chosen
      (λ q. time_le (at 250) (row_time q))
      earlier_or_same
      quotes
      (choose "next_after_delay" (at 200) (at 250) quotes)
    × Chosen
        (λ q. time_eq (row_time q) (at 200))
        earlier_or_same
        quotes
        (choose "exact" (at 200) (at 250) quotes)
choose_by_time_example = choose_by_time (at 200) (at 250) quotes

price_in_spread_example :
    Within
      (pos 10)
      (pos 14)
      (policy_price (policy "exact" through_spread false) (quote_at 300 10 14))
price_in_spread_example =
    price_in_spread (policy "exact" through_spread false) (quote_at 300 10 14) (pos 10) (pos 14)
      (λ e. cc) refl refl (omega arith) (omega arith)

fallback_has_no_price_example :
    let r = select_quote (pos 120) (at 50) [] (policy "exact" last true) (pos 0) in
    (r.selected_quote ≡ some (theoretical_quote (delayed (ensure_aware (at 50)) (pos 0))))
    × (r.selected_price ≡ none)
unfolding choose
fallback_has_no_price_example =
    fallback_has_no_price (pos 120) (at 50) [] (policy "exact" last true) (pos 0) refl refl
