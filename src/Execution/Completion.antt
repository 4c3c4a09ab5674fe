-- ===== src/Execution/Completion.antt =====
-- What `execute` of backend/backtesting/execution.py reports of its legs.
use mathlib.Core.List.{Perm}
use option_research_platform.Base.{
  ◌≡◌, refl, ap, ◌∙◌, Bool, not, List, [], ◌∷◌, map, All, arith, ◌&&◌,
}
use option_research_platform.Base.Int.{ℤ, pos, negsuc, ◌+ℤ◌, ◌≤ℤ◌, max_ℤ, ltb_ℤ, int_laws}
use option_research_platform.Base.Value.{places}
use option_research_platform.Base.Shares.{ratio_lem, ltb_iff}
use option_research_platform.Base.Sort.{IsSorted, sorted, sorted-IsSorted, sorted-perm, All-sorted}
use option_research_platform.Execution.{ExecutionRequest}
use option_research_platform.Execution.FillBounds.{fill_range}
use option_research_platform.Execution.Coordinator.{
  ExecutionPlan, leg_order, attempt, attempts_of, sum_by, execute, name_or,
}

-- A quantity that is not negative.
abbrev pub IsSound : ExecutionRequest → Type 0
IsSound r = pos 0 ≤ℤ r.quantity

attempts_of-request :
    (plan : ExecutionPlan) (rs : List ExecutionRequest)
    → map (λ a. a.request) (attempts_of plan rs) ≡ rs
unfolding attempt
attempts_of-request plan [] = refl
attempts_of-request plan (r ∷ rest) = ap (λ xs. r ∷ xs) (attempts_of-request plan rest)

-- Every request is attempted exactly once, in the order of the leg priorities, then of the request times, then
-- of the leg names.
pub execute_in_order :
    (plan : ExecutionPlan) (requests : List ExecutionRequest)
    → let tried = map (λ a. a.request) (execute plan requests).fills in
      Perm tried requests × IsSorted (leg_order plan.leg_priority) tried
unfolding execute
execute_in_order plan requests =
    let o = leg_order plan.leg_priority in
    rw (attempts_of-request plan (sorted o requests))
      (sorted-perm o requests, sorted-IsSorted o requests)

attempt_whole :
    (plan : ExecutionPlan) (r : ExecutionRequest)
    → IsSound r
    → let f = (attempt plan r).fill in
      (pos 0 ≤ℤ f.filled_quantity)
      × (f.filled_quantity ≤ℤ r.quantity)
      × (f.filled_quantity +ℤ f.remaining_quantity ≡ r.quantity)
unfolding attempt
attempt_whole plan r h =
    let selection = (attempt plan r).selection in
    fill_range plan.engine r selection.selected_quote selection
      (name_or "midpoint" r.fill_model_policy.name) h

max_nonneg : (q : ℤ) → pos 0 ≤ℤ q → max_ℤ (pos 0) q ≡ q
max_nonneg (pos n) h = ground arith
max_nonneg (negsuc n) h = absurd (omega arith)

max_one : (q : ℤ) → pos 1 ≤ℤ q → max_ℤ (pos 1) q ≡ q
max_one (pos n) h = ground arith
max_one (negsuc n) h = absurd (omega arith)

and_cong : {a b : Bool} → a ≡ b → (c : Bool) → (a && c) ≡ (b && c)
and_cong e c = ap (λ x. x && c) e

short_lem : (f u w : ℤ) → f +ℤ u ≡ w → ltb_ℤ f w ≡ ltb_ℤ (pos 0) u
short_lem f u w h = rw⁻¹ h (ltb_iff _ _ _ _ (λ k. omega (int_laws, k)) (λ k. omega (int_laws, k)))

sum_step : (f m q F M W : ℤ) → f +ℤ m ≡ q → F +ℤ M ≡ W → f +ℤ F +ℤ (m +ℤ M) ≡ q +ℤ W
sum_step f m q F M W h k = rw⁻¹ h (rw⁻¹ k (omega int_laws))

sum_nonneg : (a b : ℤ) → pos 0 ≤ℤ a → pos 0 ≤ℤ b → pos 0 ≤ℤ a +ℤ b
sum_nonneg a b h k = omega int_laws

sum_mono : (a b c d : ℤ) → a ≤ℤ b → c ≤ℤ d → a +ℤ c ≤ℤ b +ℤ d
sum_mono a b c d h k = omega int_laws

sums :
    (plan : ExecutionPlan) (rs : List ExecutionRequest)
    → All IsSound rs
    → let xs = attempts_of plan rs in
      let filled = sum_by (λ a. a.fill.filled_quantity) xs in
      let wanted = sum_by (λ r. max_ℤ (pos 0) r.quantity) rs in
      (pos 0 ≤ℤ filled)
      × (filled ≤ℤ wanted)
      × (filled +ℤ sum_by (λ a. a.fill.remaining_quantity) xs ≡ wanted)
sums plan [] h = (omega arith, omega arith, omega int_laws)
sums plan (r ∷ rest) h =
    let one = attempt_whole plan r h.0 in
    let others = sums plan rest h.1 in
    rw (max_nonneg r.quantity h.0) (
      sum_nonneg _ _ one.0 others.0,
      sum_mono _ _ _ _ one.1 others.1,
      sum_step _ _ _ _ _ _ one.2 others.2,
    )

-- The contracts that the requests ask for.
abbrev pub wanted : List ExecutionRequest → ℤ
wanted = sum_by (λ r. max_ℤ (pos 0) r.quantity)

-- Where no quantity is negative and something is asked for, what is filled and what is unfilled
-- make up the contracts asked for, the filled ratio lies between 0 and 1, and an execution may be
-- retried exactly when contracts are unfilled and it is not cancelled.
pub execute_completion :
    (plan : ExecutionPlan) (requests : List ExecutionRequest)
    → All IsSound requests
    → pos 1 ≤ℤ wanted (sorted (leg_order plan.leg_priority) requests)
    → let x = execute plan requests in
      (sum_by (λ a. a.fill.filled_quantity) x.fills +ℤ x.unfilled_contracts
        ≡ wanted (sorted (leg_order plan.leg_priority) requests))
      × (pos 0 ≤ℤ x.filled_ratio)
      × (x.filled_ratio ≤ℤ pos places)
      × (x.retry_eligible ≡ (ltb_ℤ (pos 0) x.unfilled_contracts && not x.cancelled))
unfolding execute
execute_completion plan requests h k =
    let o = leg_order plan.leg_priority in
    let s = sums plan (sorted o requests) (All-sorted o IsSound requests h) in
    rw (max_one (wanted (sorted o requests)) k) (
      let ratio = ratio_lem _ (wanted (sorted o requests)) s.0 s.1 k in
      (s.2, ratio.0, ratio.1, and_cong (ratio.2 ∙ short_lem _ _ _ s.2) _))
