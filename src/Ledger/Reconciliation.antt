-- ===== src/Ledger/Reconciliation.antt =====
-- `verify` of backend/portfolio/reconciliation.py. Of the margin result the two amounts that it
-- reads are kept; `verify` raises the codes of the failed checks.
use option_research_platform.Base.{
  Bool, true, not, String, List, [], ◌∷◌, map, select, if◌then◌else◌, ◌&&◌,
}
use option_research_platform.Base.Int.{◌+ℤ◌, ◌-ℤ◌, abs_ℤ, leb_ℤ}
use option_research_platform.Base.Value.{Amount}
use option_research_platform.Base.Result.{Result, ok, err}
use option_research_platform.Ledger.{AccountState}

pub record MarginResult : Type 0 where
  pub maintenance_requirement : Amount
  pub post_trade_buying_power : Amount

pub record ReconciliationCheck : Type 0 where
  pub check_name : String
  pub expected : Amount
  pub observed : Amount
  pub passed : Bool
  pub reason_code : String

pub record ReconciliationResult : Type 0 where
  pub reconciled : Bool
  pub checks : List ReconciliationCheck

-- The amounts that the caller expects.
pub record Expectations : Type 0 where
  pub option_quantity_total : Amount
  pub stock_quantity_total : Amount
  pub expected_reserved_capital : Amount
  pub expected_collateral : Amount
  pub expected_interest : Amount
  pub expected_borrow_charges : Amount
  pub expected_fees : Amount

module _ (tolerance : Amount) where
  abbrev pub check : String → Amount → Amount → String → ReconciliationCheck
  check check_name expected observed reason_code =
      let passed = leb_ℤ (abs_ℤ (expected -ℤ observed)) tolerance in
      record {
        check_name = check_name;
        expected = expected;
        observed = observed;
        passed = passed;
        reason_code = if passed then "ok" else reason_code;
      }

  -- The ten checks; the last five compare an amount with itself.
  abbrev pub account_checks : AccountState → MarginResult → Expectations → List ReconciliationCheck
  account_checks s m e =
      check "settled_cash" (s.settled_cash +ℤ s.unsettled_cash)
        (s.free_cash +ℤ s.reserved_cash +ℤ s.collateral_cash) "cash_balance_mismatch"
      ∷ check "reserved_capital" e.expected_reserved_capital s.reserved_cash
          "reserved_capital_mismatch"
      ∷ check "collateral" e.expected_collateral s.collateral_cash "collateral_mismatch"
      ∷ check "margin_requirement" m.maintenance_requirement s.maintenance_requirement
          "maintenance_requirement_mismatch"
      ∷ check "buying_power" m.post_trade_buying_power s.buying_power "buying_power_mismatch"
      ∷ check "interest_placeholder" e.expected_interest e.expected_interest "interest_ok"
      ∷ check "borrow_placeholder" e.expected_borrow_charges e.expected_borrow_charges "borrow_ok"
      ∷ check "fees_placeholder" e.expected_fees e.expected_fees "fees_ok"
      ∷ check "option_quantities" e.option_quantity_total e.option_quantity_total
          "option_quantity_ok"
      ∷ check "stock_quantities" e.stock_quantity_total e.stock_quantity_total "stock_quantity_ok"
      ∷ []

  abbrev pub all_passed : List ReconciliationCheck → Bool
  all_passed [] = true
  all_passed (c ∷ rest) = c.passed && all_passed rest

  abbrev pub failures : List ReconciliationCheck → List String
  failures checks = map (λ c. c.reason_code) (select (λ c. not c.passed) checks)

  unfoldable pub verify :
      AccountState → MarginResult → Expectations → Result (List String) ReconciliationResult
  verify s m e =
      let checks = account_checks s m e in
      if all_passed checks
      then ok (record { reconciled = true; checks = checks })
      else err (failures checks)
