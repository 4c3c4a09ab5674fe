-- ===== src/Ledger/Tests.antt =====
-- A run of the ledger, and each theorem at a concrete input.
use option_research_platform.Base.{
  select, ◌≡◌, refl, true, false, String, none, [], ◌∷◌, map, ℕ, ◌*◌, arith, if◌then◌else◌,
}
use option_research_platform.Base.Int.{pos, negsuc, ◌+ℤ◌, ◌-ℤ◌, ◌*ℤ◌, ◌≤ℤ◌, abs_ℤ, leb_ℤ}
use option_research_platform.Base.Value.{Amount, places}
use option_research_platform.Base.Result.{ok, err}
use option_research_platform.Base.Time.{Datetime, micros_per_day, ensure_aware, add_micros}
use option_research_platform.Ledger.{
  CashEventType, stock_sale, fee, SettlementTiming, CashEvent, CashPosting, AccountConfiguration,
  lag_days, post, reserve, snapshot, tally, tally_one, account_state,
}
use option_research_platform.Ledger.Reconciliation.{Expectations, verify, account_checks}
use option_research_platform.Ledger.DueDates.{
  snapshot_settles_when_due, total_where, is_due, is_pending,
}
use option_research_platform.Ledger.Sums.{
  snapshot_sums, snapshot_conserves, moved, total_of, has_settled, is_waiting, in_effect,
}
use option_research_platform.Ledger.Audit.{verify-account_state, own_margin, agreeing}

-- Shares and options settle on the next day, the rest at once.
abbrev timing : SettlementTiming
timing = record {
  equity_trade_days = pos 1;
  option_trade_days = pos 1;
  exercise_days = pos 1;
  assignment_days = pos 1;
  cash_settled_option_days = pos 1;
  dividend_days = pos 0;
  fee_days = pos 0;
  interest_days = pos 0;
  borrow_days = pos 0;
}

abbrev at_day : ℕ → Datetime
at_day n = record { wall = pos (n * micros_per_day); utcoffset = none }

abbrev event : String → CashEventType → Amount → ℕ → CashEvent
event name kind amount day = record {
  posting_id = name;
  event_type = kind;
  amount = amount;
  trade_timestamp = at_day day;
  strategy_id = none;
  position_id = none;
}

abbrev sale : CashEvent
sale = event "sale" stock_sale (pos (500 * places)) 3

abbrev charge : CashEvent
charge = event "charge" fee (negsuc 199999999) 3

abbrev account : AccountConfiguration
account = record {
  account_id = "account";
  base_currency = "USD";
  settled_cash = pos (1000 * places);
  unsettled_cash = pos 0;
}

-- On the day of the sale its proceeds are not settled, the fee is.
run-snapshot :
    let s = snapshot account (map (post timing) (sale ∷ charge ∷ [])) (at_day 3) in
    (s.settled_cash ≡ pos (998 * places)) × (s.unsettled_cash ≡ pos (500 * places))
unfolding snapshot tally tally_one post lag_days ensure_aware add_micros ◌+ℤ◌ ◌-ℤ◌ ◌*ℤ◌
run-snapshot = (refl, refl)

lags : (kind : CashEventType) → pos 0 ≤ℤ lag_days timing kind
unfolding lag_days
lags kind = ground arith

snapshot_settles_when_due_example :
    let s = snapshot account (map (post timing) (sale ∷ charge ∷ [])) (at_day 3) in
    (s.settled_cash
      ≡ pos (1000 * places) +ℤ total_where (is_due timing (at_day 3)) (sale ∷ charge ∷ []))
    × (s.unsettled_cash ≡ pos 0 +ℤ total_where (is_pending timing (at_day 3)) (sale ∷ charge ∷ []))
snapshot_settles_when_due_example =
    snapshot_settles_when_due timing lags account (sale ∷ charge ∷ []) (at_day 3)

abbrev reserved : CashPosting
reserved = reserve "reserved" (pos (200 * places)) (at_day 3) none none false

snapshot_sums_example :
    let ps = post timing sale ∷ reserved ∷ [] in
    let s = snapshot account ps (at_day 4) in
    let at = ensure_aware (at_day 4) in
    (s.settled_cash
      ≡ account.settled_cash
        +ℤ total_of (λ p. p.settled_delta +ℤ p.unsettled_delta) (select (has_settled at) ps)
        +ℤ total_of (λ p. p.settled_delta) (select (is_waiting at) ps))
    × (s.unsettled_cash
        ≡ account.unsettled_cash +ℤ total_of (λ p. p.unsettled_delta) (select (is_waiting at) ps))
    × (s.reserved_cash ≡ total_of (λ p. p.reserved_delta) (select (in_effect at) ps))
    × (s.collateral_cash ≡ total_of (λ p. p.collateral_delta) (select (in_effect at) ps))
    × (s.free_cash ≡ s.settled_cash -ℤ s.reserved_cash -ℤ s.collateral_cash)
snapshot_sums_example = snapshot_sums account (post timing sale ∷ reserved ∷ []) (at_day 4)

snapshot_conserves_example :
    let ps = post timing sale ∷ reserved ∷ [] in
    let s = snapshot account ps (at_day 4) in
    (s.free_cash +ℤ s.reserved_cash +ℤ s.collateral_cash ≡ s.settled_cash)
    × (s.net_cash ≡ pos (1000 * places) +ℤ pos 0 +ℤ moved (ensure_aware (at_day 4)) ps)
snapshot_conserves_example =
    snapshot_conserves account (post timing sale ∷ reserved ∷ []) (at_day 4)

abbrev expected : Expectations
expected = record {
  option_quantity_total = pos 0;
  stock_quantity_total = pos 0;
  expected_reserved_capital = pos 0;
  expected_collateral = pos 0;
  expected_interest = pos 0;
  expected_borrow_charges = pos 0;
  expected_fees = pos 0;
}

verify-account_state_example :
    let balance = snapshot account (post timing sale ∷ []) (at_day 3) in
    let s = account_state account balance (pos 0) (pos 0) (pos 0) in
    verify (pos 100) s (own_margin s) (agreeing s expected) ≡ (
      if leb_ℤ (abs_ℤ balance.unsettled_cash) (pos 100)
      then ok (record {
        reconciled = true;
        checks = account_checks (pos 100) s (own_margin s) (agreeing s expected);
      })
      else err ("cash_balance_mismatch" ∷ []))
verify-account_state_example =
    verify-account_state (pos 100) (omega arith) account (post timing sale ∷ []) (at_day 3) (pos 0)
      (pos 0) (pos 0) expected
