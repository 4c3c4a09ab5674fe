-- ===== src/Settlement/Sides.antt =====
-- The two sides of one contract in `process_expiration` of backend/backtesting/execution.py.
use option_research_platform.Base.{
  ◌≡◌, ap, ◌∙◌, inl, inr, Bool, true, false, some, if◌then◌else◌, Bool-cases,
}
use option_research_platform.Base.Int.{
  ℤ, pos, negsuc, pos_part, neg_part, ◌+ℤ◌, ◌*ℤ◌, abs_ℤ, neg, int_laws, sign_laws,
}
use option_research_platform.Base.Value.{Amount, times}
use option_research_platform.Settlement.Decisions.{is_cash, is_call, intrinsic_per}
use option_research_platform.Settlement.Postings.{
  SettlementRequest, ExpirationRequest, process_expiration, settlement_request, settled_result,
  sum_amounts, shares_of, held, strike_cash, cash_move,
}
use option_research_platform.Settlement.Deliveries.{outcome_of}
use option_research_platform.Settlement.Expiration.{settling, process_expiration_settlement}

two_fees :
    (c d f g : ℤ) → c +ℤ d ≡ pos 0 → (pos 0 +ℤ c +ℤ neg f) +ℤ (pos 0 +ℤ d +ℤ neg g) ≡ neg f +ℤ neg g
two_fees c d f g h = omega (int_laws, ap pos_part h, ap neg_part h)

two_fees_physical :
    (c d f g : ℤ)
    → c +ℤ d ≡ pos 0
    → (pos 0 +ℤ pos 0 +ℤ c +ℤ neg f) +ℤ (pos 0 +ℤ pos 0 +ℤ d +ℤ neg g) ≡ neg f +ℤ neg g
two_fees_physical c d f g h = omega (int_laws, ap pos_part h, ap neg_part h)

signs_cancel : (x : ℤ) → x *ℤ pos 1 +ℤ x *ℤ negsuc 0 ≡ pos 0
signs_cancel x = simp sign_laws (omega int_laws)

sides_cancel :
    (x y : ℤ)
    → (call : Bool)
    → (if call then x *ℤ pos 1 else y *ℤ pos 1) +ℤ (if call then x *ℤ negsuc 0 else y *ℤ negsuc 0)
      ≡ pos 0
sides_cancel x y true = signs_cancel x
sides_cancel x y false = signs_cancel y

-- The request of the holder, and that of the writer with fees of its own.
abbrev holder : SettlementRequest → SettlementRequest
holder r = record r { is_long = true }

abbrev writer : Amount → SettlementRequest → SettlementRequest
writer fees r = record r { is_long = false; fees = fees }

settled_sides :
    (r : SettlementRequest) (fees : Amount) (k : ℤ)
    → ((settled_result (holder r) k).stock_position_change
          +ℤ (settled_result (writer fees r) k).stock_position_change
        ≡ pos 0)
      × ((settled_result (holder r) k).realized_pnl
            +ℤ (settled_result (writer fees r) k).realized_pnl
          ≡ neg (abs_ℤ r.fees) +ℤ neg (abs_ℤ fees))
unfolding settled_result sum_amounts shares_of
settled_sides r fees k = elim (Bool-cases (is_cash r.metadata)) [
  | inl c ↦ rw c (
    omega int_laws,
    two_fees (cash_move (holder r)) (cash_move (writer fees r)) (abs_ℤ r.fees) (abs_ℤ fees) (
        signs_cancel
          (times (intrinsic_per r.metadata r.underlying_price r.strike *ℤ held r) r.multiplier)),
  )
  | inr c ↦ rw c (
      let shares = shares_of r k in
      (
        sides_cancel shares (neg shares) (is_call r.metadata),
        two_fees_physical (strike_cash (holder r) k) (strike_cash (writer fees r) k) (abs_ℤ r.fees)
            (abs_ℤ fees)
            (sides_cancel (neg r.strike *ℤ shares) (r.strike *ℤ shares) (is_call r.metadata)),
      ))
]

-- A long and a short position in one contract, of the same size, of which as many contracts are
-- assigned as are exercised: the expiration is zero-sum but for the fees. The shares of the two sides
-- cancel, and so do their cash flows, up to the fees that each of them pays.
pub process_expiration_zero_sum :
    (draws_half : ℤ → Bool) (long short : ExpirationRequest) (k : ℤ)
    → long.is_long ≡ true
    → settlement_request short
      ≡ record (settlement_request long) { is_long = false; fees = short.fees }
    → settling draws_half long ≡ some k
    → settling draws_half short ≡ some k
    → let a = (process_expiration draws_half long).settlement in
      let b = (process_expiration draws_half short).settlement in
      (a.stock_position_change +ℤ b.stock_position_change ≡ pos 0)
      × (a.realized_pnl +ℤ b.realized_pnl ≡ neg (abs_ℤ long.fees) +ℤ neg (abs_ℤ short.fees))
process_expiration_zero_sum draws_half long short k is_long same exercised assigned =
    let r = settlement_request long in
    let a : (process_expiration draws_half long).settlement ≡ settled_result (holder r) k =
      process_expiration_settlement draws_half long
      ∙ ap (outcome_of r) exercised
      ∙ ap (λ side. settled_result (record r { is_long = side }) k) is_long in
    let b : (process_expiration draws_half short).settlement
        ≡ settled_result (writer short.fees r) k =
      process_expiration_settlement draws_half short
      ∙ ap (outcome_of (settlement_request short)) assigned
      ∙ ap (λ q. settled_result q k) same in
    rw (a, b) (settled_sides r short.fees k)
