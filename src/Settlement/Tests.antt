-- ===== src/Settlement/Tests.antt =====
-- Runs of the settlement, and each theorem at a concrete input.
use option_research_platform.Base.{◌⊎◌, ◌≡◌, refl, Bool, true, false, String, none, some, ℕ, ◌*◌}
use option_research_platform.Base.Int.{ℤ, pos, ◌+ℤ◌, ◌-ℤ◌, ◌*ℤ◌, ◌≤ℤ◌, abs_ℤ, neg}
use option_research_platform.Base.Value.{Amount, places, times, truncate, over}
use option_research_platform.Settlement.Decisions.{
  ContractMetadata, ExpirationProcessingResult, AssignmentDecision, expiration_decision,
  assigned_quantity, intrinsic_per, assignment_risk, short_assignment_decision,
  long_exercise_decision, exercise_ruling,
}
use option_research_platform.Settlement.Postings.{
  SettlementRequest, ExpirationRequest, settle, process_expiration, settlement_request,
}
use option_research_platform.Settlement.Laws.{physical_settlement}
use option_research_platform.Settlement.Sides.{process_expiration_zero_sum}
use option_research_platform.Settlement.Deliveries.{IsLeft, IsDelivered, contracts_of, outcome_of}
use option_research_platform.Settlement.Expiration.{
  settling, process_expiration_settlement, process_expiration_conserves,
}

abbrev dollars : ℕ → Amount
dollars n = pos (n * places)

abbrev contract : String → String → ContractMetadata
contract kind settlement = record { option_type = some kind; settlement_type = some settlement }

-- A short call struck at 100, three contracts, with the underlying at 105.
abbrev short_call : String → SettlementRequest
short_call settlement = record {
  metadata = contract "call" settlement;
  underlying_price = dollars 105;
  strike = dollars 100;
  quantity = pos 3;
  multiplier = dollars 100;
  is_long = false;
  fees = dollars 2;
}

abbrev itm : ExpirationProcessingResult
itm = record {
  status = "itm";
  intrinsic_value = dollars 15;
  in_the_money = true;
  cash_settled = false;
  physically_settled = true;
}

abbrev assigned : ℕ → AssignmentDecision
assigned n = record {
  decision = "assign";
  partial_assignment = true;
  assignment_quantity = pos n;
  rationale = "economic_assignment_risk";
  risk_score = dollars 5;
}

-- One of the three contracts is assigned: 100 shares are delivered for 10,000, less 2 of fees.
run-settle :
    ((settle (short_call "physical") itm none (some (assigned 1))).stock_position_change
      ≡ neg (pos 100))
    × ((settle (short_call "physical") itm none (some (assigned 1))).realized_pnl ≡ dollars 9998)
    × ((settle (short_call "physical") itm none (some (assigned 1))).residual_contracts ≡ pos 2)
unfolding settle ◌*ℤ◌ ◌+ℤ◌ ◌-ℤ◌ neg times truncate
run-settle = (refl, refl, refl)

physical_settlement_example :
    (settle (short_call "physical") itm none (some (assigned 1))).realized_pnl
      +ℤ dollars 100
        *ℤ (settle (short_call "physical") itm none (some (assigned 1))).stock_position_change
    ≡ neg (abs_ℤ (dollars 2))
physical_settlement_example =
    physical_settlement (short_call "physical") itm none (some (assigned 1)) refl refl

abbrev written : ExpirationRequest
written = record {
  position = record {
    metadata = contract "call" "physical";
    underlying_price = dollars 105;
    strike = dollars 100;
    quantity = pos 3;
    remaining_extrinsic = dollars 1;
    dividend_amount = none;
  };
  multiplier = dollars 100;
  fees = dollars 2;
  interest_rate = pos 0;
  is_long = false;
  exercise_threshold = pos 1000000;
  pin_risk_band = dollars 1;
  seeded_assignment = some (pos 7);
}

abbrev draw : ℤ → Bool
draw seed = true

-- Half of three contracts is one.
run-process_expiration :
    (contracts_of (settling draw written) ≡ pos 1)
    × ((process_expiration draw written).settlement.residual_contracts ≡ pos 2)
unfolding settling process_expiration assigned_quantity intrinsic_per expiration_decision
    assignment_risk short_assignment_decision ◌*ℤ◌ ◌+ℤ◌ ◌-ℤ◌ neg times truncate
run-process_expiration = (refl, refl)

process_expiration_settlement_example :
    (process_expiration draw written).settlement
    ≡ outcome_of (settlement_request written) (settling draw written)
process_expiration_settlement_example = process_expiration_settlement draw written

process_expiration_conserves_example :
    let s = (process_expiration draw written).settlement in
    (pos 0 ≤ℤ s.residual_contracts)
    × (s.residual_contracts ≤ℤ pos 3)
    × (IsLeft (settlement_request written) s ⊎ IsDelivered (settlement_request written) s)
process_expiration_conserves_example = process_expiration_conserves draw written

-- The holder of the same contracts, and a draw that assigns all of them.
abbrev bought : ExpirationRequest
bought = record written { is_long = true; fees = dollars 1 }

abbrev draw_all : ℤ → Bool
draw_all seed = false

exercised : settling draw_all bought ≡ some (pos 3)
unfolding settling intrinsic_per expiration_decision long_exercise_decision exercise_ruling ◌*ℤ◌
    ◌+ℤ◌ ◌-ℤ◌ neg times over truncate
exercised = refl

assigned_in_full : settling draw_all written ≡ some (pos 3)
unfolding settling assigned_quantity intrinsic_per expiration_decision assignment_risk
    short_assignment_decision ◌*ℤ◌ ◌+ℤ◌ ◌-ℤ◌ neg times truncate
assigned_in_full = refl

process_expiration_zero_sum_example :
    let a = (process_expiration draw_all bought).settlement in
    let b = (process_expiration draw_all written).settlement in
    (a.stock_position_change +ℤ b.stock_position_change ≡ pos 0)
    × (a.realized_pnl +ℤ b.realized_pnl ≡ neg (abs_ℤ (dollars 1)) +ℤ neg (abs_ℤ (dollars 2)))
process_expiration_zero_sum_example =
    process_expiration_zero_sum draw_all bought written (pos 3) refl refl exercised assigned_in_full
