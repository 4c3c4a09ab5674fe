-- ===== src/Ledger/Audit.antt =====
-- `verify` of backend/portfolio/reconciliation.py on the state that the ledger itself computes.
use option_research_platform.Base.{
  ◌≡◌, refl, inl, inr, true, List, [], ◌∷◌, if◌then◌else◌, Bool-cases, le→leb,
}
use option_research_platform.Base.Int.{pos, ◌+ℤ◌, ◌-ℤ◌, ◌≤ℤ◌, abs_ℤ, leb_ℤ, int_laws}
use option_research_platform.Base.Value.{Amount}
use option_research_platform.Base.Result.{ok, err}
use option_research_platform.Base.Time.{Datetime}
use option_research_platform.Ledger.{
  AccountConfiguration, AccountState, CashPosting, snapshot, account_state,
}
use option_research_platform.Ledger.Reconciliation.{
  MarginResult, Expectations, verify, account_checks,
}
use option_research_platform.Ledger.Sums.{snapshot_conserves}

-- The margin result and the expectations that agree with a state.
abbrev pub own_margin : AccountState → MarginResult
own_margin s = record {
  maintenance_requirement = s.maintenance_requirement;
  post_trade_buying_power = s.buying_power;
}

abbrev pub agreeing : AccountState → Expectations → Expectations
agreeing s e = record e {
  expected_reserved_capital = s.reserved_cash;
  expected_collateral = s.collateral_cash;
}

self_gap : (x : Amount) → x -ℤ x ≡ pos 0
self_gap x = omega int_laws

unsettled_gap : (a b c : Amount) → c ≡ a → (a +ℤ b) -ℤ c ≡ b
unsettled_gap a b c h = rw h (omega int_laws)

module _ (tolerance : Amount) (exact : pos 0 ≤ℤ tolerance) where
  zero_passes : leb_ℤ (pos 0) tolerance ≡ true
  zero_passes = le→leb _ _ exact

  -- Only the first check can fail then.
  own_amounts :
      (s : AccountState) (e : Expectations)
      → s.free_cash +ℤ s.reserved_cash +ℤ s.collateral_cash ≡ s.settled_cash
      → verify tolerance s (own_margin s) (agreeing s e) ≡ (
          if leb_ℤ (abs_ℤ s.unsettled_cash) tolerance
          then ok (record {
            reconciled = true;
            checks = account_checks tolerance s (own_margin s) (agreeing s e);
          })
          else err ("cash_balance_mismatch" ∷ []))
  unfolding verify
  own_amounts s e h =
      let gap = unsettled_gap s.settled_cash s.unsettled_cash _ h in
      elim (Bool-cases (leb_ℤ (abs_ℤ s.unsettled_cash) tolerance)) [
        | inl small ↦ simp (gap, self_gap, zero_passes, small) refl
        | inr large ↦ simp (gap, self_gap, zero_passes, large) refl
      ]

  -- `verify` accepts the state that the ledger computes for an account, against expectations that
  -- agree with it, exactly when its unsettled cash is within the tolerance: a larger amount of
  -- unsettled cash alone makes it raise the mismatch of the cash balance.
  pub verify-account_state :
      (c : AccountConfiguration) (ps : List CashPosting) (as_of : Datetime)
      → (buying_power initial maintenance : Amount) → (e : Expectations)
      → let balance = snapshot c ps as_of in
        let s = account_state c balance buying_power initial maintenance in
        verify tolerance s (own_margin s) (agreeing s e) ≡ (
          if leb_ℤ (abs_ℤ balance.unsettled_cash) tolerance
          then ok (record {
            reconciled = true;
            checks = account_checks tolerance s (own_margin s) (agreeing s e);
          })
          else err ("cash_balance_mismatch" ∷ []))
  unfolding account_state
  verify-account_state c ps as_of buying_power initial maintenance e =
      own_amounts (account_state c (snapshot c ps as_of) buying_power initial maintenance) e
        (snapshot_conserves c ps as_of).0
