-- ===== src/Execution/FeeBounds.antt =====
-- The commission of backend/backtesting/fees.py between its minimum and its cap.
use option_research_platform.Base.{Option, none, some, arith, if◌then◌else◌}
use option_research_platform.Base.Int.{ℤ, pos, ◌+ℤ◌, ◌*ℤ◌, ◌≤ℤ◌, ◌<ℤ◌, max_ℤ, ltb_ℤ, max_ℤ_bounds}
use option_research_platform.Base.Value.{Amount}
use option_research_platform.Execution.{ExecutionRequest, entry}
use option_research_platform.Execution.Fees.{commission_of, at_least, at_most}

-- A bound that is given holds.
abbrev pub Below : Amount → Option Amount → Type 0
Below a none = Unit
Below a (some m) = a ≤ℤ m

abbrev pub Above : Amount → Option Amount → Type 0
Above a none = Unit
Above a (some m) = m ≤ℤ a

-- A floor that is not above the cap, where both are given.
abbrev pub Fits : Option Amount → Option Amount → Type 0
Fits none cap = Unit
Fits (some f) cap = Below f cap

capped :
    (floor cap : Option Amount) (ticket a : Amount)
    → Fits floor cap
    → Below ticket cap
    → ticket ≤ℤ a
    → let c = at_most cap (at_least floor a) in Below c cap × Above c floor × (ticket ≤ℤ c)
capped none none t a h k l = (tt, tt, l)
capped (some f) none t a h k l = (tt, (max_ℤ_bounds a f).1, ground arith)
capped none (some m) t a h k l = (ground arith, tt, ground arith)
capped (some f) (some m) t a h k l = (ground arith, ground arith, ground arith)

charged :
    (base ticket : Amount) (qty : ℤ)
    → pos 0 <ℤ qty
    → ticket ≤ℤ (if ltb_ℤ (pos 0) qty then max_ℤ base ticket else base)
charged base ticket qty h = ground arith

-- Where the floor and the minimum ticket are not above the cap, the commission on a filled quantity is not above
-- the cap, and not below the floor or the minimum ticket.
pub commission_bounds :
    (r : ExecutionRequest) (qty : ℤ)
    → let p = r.commission_policy in
      Fits p.minimum_fee_cap p.maximum_fee_cap
      → Below (entry (pos 0) p.minimum_ticket) p.maximum_fee_cap
      → pos 0 <ℤ qty
      → let c = commission_of r qty in
        Below c p.maximum_fee_cap
        × Above c p.minimum_fee_cap
        × (entry (pos 0) p.minimum_ticket ≤ℤ c)
unfolding commission_of
commission_bounds r qty h k l =
    let p = r.commission_policy in
    let base =
      entry (pos 0) p.per_contract *ℤ qty
      +ℤ entry (pos 0) p.per_order
      +ℤ entry (pos 0) p.stock_commission in
    capped p.minimum_fee_cap p.maximum_fee_cap (entry (pos 0) p.minimum_ticket) _ h k
      (charged base (entry (pos 0) p.minimum_ticket) qty l)
