-- ===== src/Execution/Exposure.antt =====
-- The notional that `execute` of backend/backtesting/execution.py counts as unfilled.
use option_research_platform.Base.{
  ◌≡◌, refl, ap, ◌∙◌, false, Option, none, some, is_some, List, [], ◌∷◌, All, arith,
}
use option_research_platform.Base.Int.{ℤ, pos, negsuc, ◌*ℤ◌, ltb_ℤ, int_laws}
use option_research_platform.Base.Value.{Amount}
use option_research_platform.Base.Sort.{sorted, All-sorted}
use option_research_platform.Execution.{ExecutionRequest, entry}
use option_research_platform.Execution.FillBounds.{fill_bounds}
use option_research_platform.Execution.Completion.{IsSound}
use option_research_platform.Execution.Coordinator.{
  ExecutionPlan, FillAttempt, leg_order, attempt, attempts_of, sum_by, execute, notional, name_or,
}

abbrev pub IsUnfilled : FillAttempt → Type 0
IsUnfilled a = a.fill.filled_quantity ≡ pos 0

times_zero : (n : ℤ) → n *ℤ pos 0 ≡ pos 0
unfolding ◌*ℤ◌
times_zero (pos n) = ground arith
times_zero (negsuc n) = ground arith

no_price : (n : ℤ) (p : Option Amount) → is_some p ≡ false → n *ℤ entry (pos 0) p ≡ pos 0
no_price n none h = times_zero n
no_price n (some a) h = cc

attempt_priced :
    (plan : ExecutionPlan) (r : ExecutionRequest)
    → IsSound r
    → is_some (attempt plan r).fill.fill_price ≡ ltb_ℤ (pos 0) (attempt plan r).fill.filled_quantity
unfolding attempt
attempt_priced plan r h =
    let selection = (attempt plan r).selection in
    (fill_bounds plan.engine r selection.selected_quote selection
      (name_or "midpoint" r.fill_model_policy.name) h).2

unfilled_notional_lem :
    (plan : ExecutionPlan) (rs : List ExecutionRequest)
    → All IsSound rs
    → All IsUnfilled (attempts_of plan rs)
    → sum_by (λ a. notional a.fill) (attempts_of plan rs) ≡ pos 0
unfilled_notional_lem plan [] h k = refl
unfilled_notional_lem plan (r ∷ rest) h k =
    rw
      (no_price (attempt plan r).fill.remaining_quantity (attempt plan r).fill.fill_price
        (attempt_priced plan r h.0 ∙ ap (λ n. ltb_ℤ (pos 0) n) k.0))
      (rw (unfilled_notional_lem plan rest h.1 k.1) (omega int_laws))

-- An execution of which no leg fills at all counts no unfilled notional, whatever it asked for, so
-- that no legging exposure that is not negative is breached.
pub nothing_filled_counts_nothing :
    (plan : ExecutionPlan) (requests : List ExecutionRequest)
    → All IsSound requests
    → All IsUnfilled (execute plan requests).fills
    → ((execute plan requests).unfilled_notional ≡ pos 0)
      × ((execute plan requests).exposure_breached ≡ ltb_ℤ plan.maximum_legging_exposure (pos 0))
unfolding execute
nothing_filled_counts_nothing plan requests h k =
    let o = leg_order plan.leg_priority in
    let total =
      unfilled_notional_lem plan (sorted o requests) (All-sorted o IsSound requests h) k in
    (total, ap (λ n. ltb_ℤ plan.maximum_legging_exposure n) total)
