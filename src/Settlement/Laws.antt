-- ===== src/Settlement/Laws.antt =====
-- What `settle` of backend/backtesting/settlement.py does to cash, shares and contracts.
use option_research_platform.Base.{◌≡◌, ap, Bool, true, false, Option, if◌then◌else◌}
use option_research_platform.Base.Int.{
  ℤ, pos, pos_part, neg_part, ◌+ℤ◌, ◌*ℤ◌, abs_ℤ, neg, int_laws, sign_laws,
}
use option_research_platform.Settlement.Decisions.{
  ExpirationProcessingResult, ExerciseDecision, AssignmentDecision, is_cash, is_call,
}
use option_research_platform.Settlement.Postings.{
  SettlementRequest, settle, settled_result, should_settle, settle_quantity, sum_amounts,
  stock_change, strike_cash, shares_of, sign,
}

-- The cash against the strike undoes the shares at the strike.
cash_for_shares :
    (s x : ℤ)
    → (call long : Bool)
    → (if call then neg s *ℤ x *ℤ sign long else s *ℤ x *ℤ sign long)
        +ℤ s *ℤ (if call then x *ℤ sign long else neg x *ℤ sign long)
      ≡ pos 0
cash_for_shares s x true true = simp sign_laws (omega int_laws)
cash_for_shares s x true false = simp sign_laws (omega int_laws)
cash_for_shares s x false true = simp sign_laws (omega int_laws)
cash_for_shares s x false false = simp sign_laws (omega int_laws)

strike_cash_lem :
    (r : SettlementRequest) → (k : ℤ) → strike_cash r k +ℤ r.strike *ℤ stock_change r k ≡ pos 0
strike_cash_lem r k = cash_for_shares r.strike (shares_of r k) (is_call r.metadata) r.is_long

exchange : (c s f : ℤ) → c +ℤ s ≡ pos 0 → pos 0 +ℤ pos 0 +ℤ c +ℤ neg f +ℤ s ≡ neg f
exchange c s f h = omega (int_laws, ap pos_part h, ap neg_part h)

-- A position that settles in shares realizes the strike for every share that it gives away, pays it
-- for every share that it receives, and pays the fees.
pub physical_settlement :
    (r : SettlementRequest)
    → (e : ExpirationProcessingResult) → (x : Option ExerciseDecision)
    → (a : Option AssignmentDecision) → should_settle e x a ≡ true
    → is_cash r.metadata ≡ false
    → (settle r e x a).realized_pnl +ℤ r.strike *ℤ (settle r e x a).stock_position_change
      ≡ neg (abs_ℤ r.fees)
unfolding settle settled_result sum_amounts
physical_settlement r e x a h c = rw h (
    rw c (
      exchange (strike_cash r (settle_quantity r a))
        (r.strike *ℤ stock_change r (settle_quantity r a)) (abs_ℤ r.fees)
        (strike_cash_lem r (settle_quantity r a))))
