-- ===== src/Execution/Fees.antt =====
-- `ItemizedFeeModel.calculate` of backend/backtesting/fees.py, in the one currency of its default.
use option_research_platform.Base.{String, Option, none, some, List, [], ◌∷◌, if◌then◌else◌}
use option_research_platform.Base.Int.{ℤ, pos, ◌+ℤ◌, ◌*ℤ◌, max_ℤ, min_ℤ, ltb_ℤ}
use option_research_platform.Base.Value.{Amount}
use option_research_platform.Execution.{ExecutionRequest, entry}

pub record FeeItem : Type 0 where
  pub fee_type : String
  pub amount : Amount

abbrev pub at_least : Option Amount → Amount → Amount
at_least none base = base
at_least (some m) base = max_ℤ base m

abbrev pub at_most : Option Amount → Amount → Amount
at_most none base = base
at_most (some m) base = min_ℤ base m

abbrev pub fee : String → Amount → FeeItem
fee name amount = record { fee_type = name; amount = amount }

-- `base` behind its three corrections
unfoldable pub commission_of : ExecutionRequest → ℤ → Amount
commission_of r qty =
    let p = r.commission_policy in
    let base =
      entry (pos 0) p.per_contract *ℤ qty
      +ℤ entry (pos 0) p.per_order
      +ℤ entry (pos 0) p.stock_commission in
    let ticket = if ltb_ℤ (pos 0) qty then max_ℤ base (entry (pos 0) p.minimum_ticket) else base in
    at_most p.maximum_fee_cap (at_least p.minimum_fee_cap ticket)

unfoldable pub calculate : ExecutionRequest → ℤ → List FeeItem
unfolding commission_of
calculate r filled_quantity =
    let qty = max_ℤ (pos 0) filled_quantity in
    fee "commission" (commission_of r qty)
    ∷ fee "exchange_fee" (entry (pos 0) r.exchange_fee_policy.exchange_fee *ℤ qty)
    ∷ fee "regulatory_fee" (entry (pos 0) r.exchange_fee_policy.regulatory_fee *ℤ qty)
    ∷ fee "clearing_fee" (entry (pos 0) r.exchange_fee_policy.clearing_fee *ℤ qty)
    ∷ fee "exercise_fee" (entry (pos 0) r.commission_policy.exercise_fee)
    ∷ fee "assignment_fee" (entry (pos 0) r.commission_policy.assignment_fee)
    ∷ []
