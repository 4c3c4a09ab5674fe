-- ===== src/Arbitration.antt =====
-- Arbitration between strategies that compete for capital, backend/backtesting/arbitration.py.
-- Scores and amounts are exact (Base/Value.antt), so a sum has no rounding.
pub mod Capital
pub mod Fairness
mod Tests
use option_research_platform.Base.{Bool, not, String, List, [], ◌∷◌, ◌++◌, ℕ, if◌then◌else◌, length}
use option_research_platform.Base.Int.{ℤ, ◌-ℤ◌, neg, leb_ℤ}
use option_research_platform.Base.Value.{Amount}
use option_research_platform.Base.Order.{Preorder, by_key, lexical, int_order, bool_order}
use option_research_platform.Base.Sort.{sorted}

pub data ArbitrationPolicy : Type 0 where
  fixed_priority risk_first capital_efficiency highest_robustness_score : ArbitrationPolicy
  highest_expected_value lowest_marginal_risk strategy_age_priority : ArbitrationPolicy
  fifo composite_score : ArbitrationPolicy

pub record CompetingAction : Type 0 where
  pub action_id : String
  pub strategy_instance_id : String
  pub action_type : String
  pub mandatory : Bool
  pub risk_priority : ℤ
  pub required_capital : Amount
  pub expected_value : Amount
  pub robustness_score : Amount
  pub marginal_risk : Amount
  pub age_seconds : Amount
  pub submitted_sequence : ℤ

pub record Rejection : Type 0 where
  pub action_id : String
  pub strategy_instance_id : String
  pub reason_code : String

pub record ArbitrationDecision : Type 0 where
  pub policy : ArbitrationPolicy
  pub accepted_actions : List CompetingAction
  pub rejected_actions : List Rejection
  pub available_capital : Amount
  pub remaining_capital : Amount
  pub competing_count : ℕ

-- The keys that `_rank` sorts by.
abbrev submitted : Preorder CompetingAction
submitted = by_key (λ row. row.submitted_sequence) int_order

abbrev ranked_by : (CompetingAction → ℤ) → Preorder CompetingAction
ranked_by key = by_key key int_order

abbrev optional_last : Preorder CompetingAction
optional_last = by_key (λ row. not row.mandatory) bool_order

-- `_rank`, as the order of each policy
abbrev pub policy_order : ArbitrationPolicy → Preorder CompetingAction
policy_order fixed_priority = lexical (ranked_by (λ row. row.risk_priority)) submitted
policy_order risk_first = lexical optional_last (ranked_by (λ row. row.risk_priority))
policy_order capital_efficiency = ranked_by (λ row. row.required_capital)
policy_order highest_robustness_score =
    lexical (ranked_by (λ row. neg row.robustness_score)) submitted
policy_order highest_expected_value = lexical (ranked_by (λ row. neg row.expected_value)) submitted
policy_order lowest_marginal_risk = lexical (ranked_by (λ row. row.marginal_risk)) submitted
policy_order strategy_age_priority = lexical (ranked_by (λ row. neg row.age_seconds)) submitted
policy_order fifo = submitted
policy_order composite_score = lexical optional_last (
    lexical (ranked_by (λ row. neg row.expected_value)) (
      lexical (ranked_by (λ row. row.required_capital)) (
        lexical (ranked_by (λ row. neg row.robustness_score))
          (ranked_by (λ row. row.marginal_risk)))))

unfoldable pub rank : ArbitrationPolicy → List CompetingAction → List CompetingAction
rank policy actions = sorted (policy_order policy) actions

-- The variables of the loop of `decide`.
pub record Allocation : Type 0 where
  pub accepted : List CompetingAction
  pub rejected : List Rejection
  pub remaining : Amount

abbrev pub rejection : CompetingAction → Rejection
rejection a = record {
  action_id = a.action_id;
  strategy_instance_id = a.strategy_instance_id;
  reason_code = "insufficient_capital";
}

unfoldable pub consider : CompetingAction → Allocation → Allocation
consider a s =
    if leb_ℤ a.required_capital s.remaining
    then record s { accepted = s.accepted ++ a ∷ []; remaining = s.remaining -ℤ a.required_capital }
    else record s { rejected = s.rejected ++ rejection a ∷ [] }

unfoldable pub allocate : List CompetingAction → Allocation → Allocation
unfolding consider
allocate [] s = s
allocate (a ∷ rest) s = allocate rest (consider a s)

abbrev pub start : Amount → Allocation
start available = record { accepted = []; rejected = []; remaining = available }

unfoldable pub decide : ArbitrationPolicy → List CompetingAction → Amount → ArbitrationDecision
unfolding allocate rank
decide policy actions available =
    let final = allocate (rank policy actions) (start available) in
    record {
      policy = policy;
      accepted_actions = final.accepted;
      rejected_actions = final.rejected;
      available_capital = available;
      remaining_capital = final.remaining;
      competing_count = length actions;
    }
