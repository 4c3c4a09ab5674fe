-- ===== src/Arbitration/Tests.antt =====
-- A run of the arbitrator, and each theorem at a concrete input.
use mathlib.Core.List.{Perm}
use option_research_platform.Base.{
  Bool, true, false, String, List, [], ◌∷◌, ◌++◌, ◌≡◌, refl, arith, ℕ,
}
use option_research_platform.Base.Int.{pos, ◌+ℤ◌, ◌-ℤ◌, ◌≤ℤ◌}
use option_research_platform.Base.Sort.{IsSorted}
use option_research_platform.Arbitration.{risk_first, fifo, CompetingAction, policy_order, decide}
use option_research_platform.Arbitration.Capital.{total_required, decide_spends}
use option_research_platform.Arbitration.Fairness.{ids, rejected_ids, decide_fairly}

abbrev action : String → Bool → ℕ → ℕ → ℕ → CompetingAction
action name mandatory priority required sequence = record {
  action_id = name;
  strategy_instance_id = "strategy";
  action_type = "entry";
  mandatory = mandatory;
  risk_priority = pos priority;
  required_capital = pos required;
  expected_value = pos 0;
  robustness_score = pos 0;
  marginal_risk = pos 0;
  age_seconds = pos 0;
  submitted_sequence = pos sequence;
}

-- The mandatory action comes first by risk and is too dear; a cheaper optional one is accepted.
abbrev competing : List CompetingAction
competing = action "a" false 1 30 1 ∷ action "b" true 5 80 2 ∷ action "c" false 0 40 3 ∷ []

run-risk_first :
    (ids (decide risk_first competing (pos 75)).accepted_actions ≡ "c" ∷ "a" ∷ [])
    × (rejected_ids (decide risk_first competing (pos 75)).rejected_actions ≡ "b" ∷ [])
    × ((decide risk_first competing (pos 75)).remaining_capital ≡ pos 5)
unfolding decide ◌-ℤ◌
run-risk_first = (refl, refl, refl)

decide_spends_example :
    (total_required (decide fifo competing (pos 75)).accepted_actions
        +ℤ (decide fifo competing (pos 75)).remaining_capital
      ≡ pos 75)
    × (pos 0 ≤ℤ (decide fifo competing (pos 75)).remaining_capital)
decide_spends_example = decide_spends fifo competing (pos 75) (omega arith)

decide_fairly_example :
    let d = decide risk_first competing (pos 75) in
    Perm (ids d.accepted_actions ++ rejected_ids d.rejected_actions) (ids competing)
    × IsSorted (policy_order risk_first) d.accepted_actions
decide_fairly_example = decide_fairly risk_first competing (pos 75)
