-- ===== src/Quotes.antt =====
-- Historical quote selection, backend/backtesting/quote_selection.py. A quote row is the record of
-- the keys that the code reads. Durations are counted in microseconds, the resolution of
-- `timedelta`, and prices as in Base/Value.antt.
pub mod Visibility
pub mod Prices
mod Tests
use text.Mathlib.Text.{◌==◌ as str_eq}
use option_research_platform.Base.{
  Bool, true, false, String, Option, none, some, List, [], ◌∷◌, ◌++◌, if◌then◌else◌, is_some,
}
use option_research_platform.Base.Int.{ℤ, pos, ◌+ℤ◌, ◌-ℤ◌, max_ℤ, min_ℤ, ltb_ℤ}
use option_research_platform.Base.Value.{Amount, times, half, over, of_int, places}
use option_research_platform.Base.Order.{Preorder, by_key}
use option_research_platform.Base.Sort.{sorted}
use option_research_platform.Base.Time.{
  Datetime, ensure_aware, add_micros, time_le, time_eq, time_order, elapsed,
}

pub data QuotePriceSelection : Type 0 where
  bid ask midpoint last through_spread : QuotePriceSelection

pub record QuoteSelectionPolicy : Type 0 where
  pub mode : String
  pub price_selection : QuotePriceSelection
  pub through_spread_pct : Amount
  pub theoretical_fallback_enabled : Bool

-- A row: `timestamp` is missing where the entry is no `datetime`, and a volatility is missing where
-- the row has no such key, which the fill model tells from an entry None.
pub record Quote : Type 0 where
  pub timestamp : Option Datetime
  pub bid : Option Amount
  pub ask : Option Amount
  pub last : Option Amount
  pub theoretical : Option Amount
  pub iv : Option (Option Amount)
  pub implied_volatility : Option (Option Amount)
  pub liquidity_score : Option Amount
  pub manifest : Option String
  pub quality_flags : List String

pub record QuoteSelectionResult : Type 0 where
  pub selected_quote : Option Quote
  pub selected_price : Option Amount
  pub quote_age : Option ℤ
  pub spread_width : Option Amount
  pub quality_flags : List String
  pub stale_data : Bool
  pub crossed_market : Bool
  pub source_manifest : Option String

abbrev epoch : Datetime
epoch = record { wall = pos 0; utcoffset = some (pos 0) }

-- `_aware(_ts(row))`
unfoldable pub row_time : Quote → Datetime
unfolding ensure_aware
row_time row = ensure_aware (elim row.timestamp [ none ↦ epoch | some t ↦ t ])

-- `next((row for row in rows if test(row)), None)`
abbrev pub first_where : (Quote → Bool) → List Quote → Option Quote
first_where test [] = none
first_where test (row ∷ rest) = if test row then some row else first_where test rest

-- The loop of the default mode: the last row before the first that is later than `ts`.
abbrev pub nearest_prior : Datetime → Option Quote → List Quote → Option Quote
nearest_prior ts selected [] = selected
nearest_prior ts selected (row ∷ rest) =
    if time_le (row_time row) ts then nearest_prior ts (some row) rest else selected

abbrev pub by_time : Preorder Quote
by_time = by_key row_time time_order

unfoldable pub choose : String → Datetime → Datetime → List Quote → Option Quote
unfolding row_time
choose mode ts delayed_ts quotes =
    let ordered = sorted by_time quotes in
    if str_eq mode "exact"
    then first_where (λ row. time_eq (row_time row) ts) ordered
    else if str_eq mode "next_after_delay"
    then first_where (λ row. time_le delayed_ts (row_time row)) ordered
    else nearest_prior ts none ordered

abbrev pub theoretical_quote : Datetime → Quote
theoretical_quote delayed_ts = record {
  timestamp = some delayed_ts;
  bid = none;
  ask = none;
  last = none;
  theoretical = some (pos 0);
  iv = none;
  implied_volatility = none;
  liquidity_score = none;
  manifest = some "theoretical_fallback";
  quality_flags = "theoretical_fallback" ∷ [];
}

abbrev pub with_both : (Amount → Amount → Amount) → Option Amount → Option Amount → Option Amount
with_both f none a = none
with_both f (some b) none = none
with_both f (some b) (some a) = some (f b a)

-- `max(0.0, min(1.0, policy.through_spread_pct))`
abbrev pub clamped_pct : QuoteSelectionPolicy → Amount
clamped_pct policy = max_ℤ (pos 0) (min_ℤ (pos places) policy.through_spread_pct)

abbrev pub price_by : QuotePriceSelection → QuoteSelectionPolicy → Quote → Option Amount
price_by QuotePriceSelection.bid policy row = row.bid
price_by QuotePriceSelection.ask policy row = row.ask
price_by QuotePriceSelection.last policy row = row.last
price_by midpoint policy row = with_both (λ b a. half (b +ℤ a)) row.bid row.ask
price_by through_spread policy row =
    with_both (λ b a. b +ℤ times (clamped_pct policy) (a -ℤ b)) row.bid row.ask

-- `_price`; its last line, which reads "theoretical", stands behind all five selections.
unfoldable pub policy_price : QuoteSelectionPolicy → Quote → Option Amount
policy_price policy row = price_by policy.price_selection policy row

abbrev pub spread_of : Quote → Option Amount
spread_of row = with_both (λ b a. max_ℤ (pos 0) (a -ℤ b)) row.bid row.ask

abbrev pub is_crossed : Option Amount → Option Amount → Bool
is_crossed (some b) (some a) = ltb_ℤ a b
is_crossed (some b) none = false
is_crossed none a = false

abbrev pub missing_quote : QuoteSelectionResult
missing_quote = record {
  selected_quote = none;
  selected_price = none;
  quote_age = none;
  spread_width = none;
  quality_flags = "missing_quote" ∷ [];
  stale_data = true;
  crossed_market = false;
  source_manifest = none;
}

abbrev pub flag_if : Bool → String → List String
flag_if true name = name ∷ []
flag_if false name = []

-- The part of `select` behind the choice of a row; `stale_after` is `stale_quote_seconds`.
unfoldable pub report : ℤ → Datetime → QuoteSelectionPolicy → Quote → QuoteSelectionResult
unfolding policy_price row_time
report stale_after ts policy row =
    let age = max_ℤ (pos 0) (elapsed ts (row_time row)) in
    let stale = ltb_ℤ stale_after age in
    let crossed = is_crossed row.bid row.ask in
    record {
      selected_quote = some row;
      selected_price = policy_price policy row;
      quote_age = some age;
      spread_width = spread_of row;
      quality_flags =
          (row.quality_flags ++ flag_if stale "stale_quote") ++ flag_if crossed "crossed_market";
      stale_data = stale;
      crossed_market = crossed;
      source_manifest = row.manifest;
    }

abbrev pub or_fallback : Bool → Datetime → Option Quote → Option Quote
or_fallback enabled delayed_ts (some row) = some row
or_fallback enabled delayed_ts none = if enabled then some (theoretical_quote delayed_ts) else none

unfoldable pub delayed : Datetime → ℤ → Datetime
unfolding add_micros
delayed ts delay = add_micros ts (max_ℤ (pos 0) delay)

-- The result of `select` from the row that its mode found.
unfoldable pub conclude :
    ℤ → Datetime → Datetime → QuoteSelectionPolicy → Option Quote → QuoteSelectionResult
unfolding report
conclude stale_after ts delayed_ts policy found =
    elim (or_fallback policy.theoretical_fallback_enabled delayed_ts found) [
      | none ↦ missing_quote
      | some row ↦ report stale_after ts policy row
    ]

-- `QuoteSelector.select`
unfoldable pub select_quote :
    ℤ → Datetime → List Quote → QuoteSelectionPolicy → ℤ → QuoteSelectionResult
select_quote stale_after request quotes policy delay =
    let ts = ensure_aware request in
    let delayed_ts = delayed ts delay in
    conclude stale_after ts delayed_ts policy (choose policy.mode ts delayed_ts quotes)
