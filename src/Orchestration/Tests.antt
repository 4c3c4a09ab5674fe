-- ===== src/Orchestration/Tests.antt =====
-- Runs of the checks of a position, and each theorem at a concrete input.
use option_research_platform.Base.{
  ◌≡◌, refl, true, false, String, map, ◌&&◌, not, arith, none, List, [], ◌∷◌, ℕ, All,
}
use option_research_platform.Base.Int.{pos, eqb_ℤ, ◌+ℤ◌, ◌≤ℤ◌, leb_ℤ}
use option_research_platform.Base.Value.{Amount, over, places}
use option_research_platform.Base.Dict.{get, put}
use option_research_platform.Orchestration.Fills.{
  reconcile_partial_fills, create_entry_plan, RollConditions, evaluate_roll_eligibility,
}
use option_research_platform.Orchestration.Retries.{any_remains, reconcile_partial_fills-retries}
use option_research_platform.Orchestration.{
  LegFillSnapshot, has_duplicate, integrity_failures, orchestrate_expiration,
}
use option_research_platform.Orchestration.Integrity.{IsFlat, closed_position-IsFlat}

abbrev leg : String → ℕ → String → LegFillSnapshot
leg label remaining status = record {
  leg_label = label;
  original_quantity = pos 2;
  filled_quantity = pos 2;
  remaining_quantity = pos remaining;
  intrinsic_value = none;
  lifecycle_status = status;
}

abbrev closed_legs : List LegFillSnapshot
closed_legs = leg "short" 0 "closed" ∷ leg "long" 0 "closed" ∷ []

abbrev broken_legs : List LegFillSnapshot
broken_legs = leg "short" 0 "closed" ∷ leg "long" 2 "open" ∷ []

-- The identity rounds amounts that have six places.
abbrev exact : Amount → Amount
exact a = a

no_failures : integrity_failures exact "closed" closed_legs (pos 500) (pos 500) ≡ []
unfolding integrity_failures has_duplicate ◌+ℤ◌
no_failures = refl

closed_position-IsFlat_example :
    (has_duplicate ("short" ∷ "long" ∷ []) ≡ false)
    × All IsFlat closed_legs
    × (eqb_ℤ (exact (pos 500)) (exact (pos 500)) ≡ true)
closed_position-IsFlat_example =
    closed_position-IsFlat exact closed_legs (pos 500) (pos 500) no_failures

run-expiration :
    let x = orchestrate_expiration broken_legs in
    (x.expired_legs ≡ "short" ∷ []) × (x.surviving_legs ≡ "long" ∷ []) × (x.broken_structure ≡ true)
unfolding orchestrate_expiration
run-expiration = (refl, refl, refl)

-- Two of three contracts are filled.
abbrev partly_filled : List LegFillSnapshot
partly_filled =
    record (leg "short" 0 "open") { original_quantity = pos 2 }
    ∷ record (leg "long" 1 "open") { original_quantity = pos 1; filled_quantity = pos 0 }
    ∷ []

reconcile_partial_fills-retries_example :
    let e = reconcile_partial_fills partly_filled (pos 50000000) (pos 60) (pos 20) true in
    (e.retry_eligible ≡ (any_remains partly_filled && not (leb_ℤ (pos 60) (pos 20))))
    × (pos 0 ≤ℤ e.strategy_fill_ratio)
    × (e.strategy_fill_ratio ≤ℤ pos places)
unfolding ◌+ℤ◌
reconcile_partial_fills-retries_example =
    reconcile_partial_fills-retries partly_filled (pos 50000000) (pos 60) (pos 20) true
      (
        record { filled = omega arith; remaining = omega arith; whole = refl },
        (record { filled = omega arith; remaining = omega arith; whole = refl }, tt),
      )
      (omega arith)

run-reconcile_partial_fills :
    let e = reconcile_partial_fills partly_filled (pos 50000000) (pos 60) (pos 70) true in
    (e.strategy_fill_ratio ≡ pos 66666666)
    × (e.cancelled ≡ false)
    × (e.timed_out ≡ true)
    × (e.residual_legs ≡ "long" ∷ [])
unfolding reconcile_partial_fills over ◌+ℤ◌
run-reconcile_partial_fills = (refl, refl, refl, refl)

-- A leg with no place comes after those that have one.
run-create_entry_plan :
    map
      (λ i. i.leg_label)
      (create_entry_plan
        (λ n label. label)
        (record { label = "x"; quantity_ratio = pos 1 }
          ∷ record { label = "b"; quantity_ratio = pos 1 }
          ∷ record { label = "a"; quantity_ratio = pos 1 }
          ∷ [])
        ("a" ∷ "b" ∷ []))
    ≡ "a" ∷ "b" ∷ "x" ∷ []
unfolding create_entry_plan get put
run-create_entry_plan = refl

abbrev good_roll : RollConditions
good_roll = record {
  liquidity_ok = true;
  target_expiration_valid = true;
  target_strike_valid = true;
  no_conflicting_corporate_action = true;
  unsupported_expiration_imminent = false;
  roll_count = pos 0;
  maximum_roll_count = pos 2;
  cumulative_debit = pos 0;
  maximum_cumulative_debit = pos 5;
  expected_improvement = pos 1;
  minimum_expected_improvement = pos 1;
  required_credit = none;
  estimated_credit = none;
  margin_placeholder_compatible = true;
  quality_score = pos 1;
  quality_threshold = pos 1;
  data_complete = true;
}

run-evaluate_roll_eligibility :
    ((evaluate_roll_eligibility good_roll).eligible ≡ true)
    × ((evaluate_roll_eligibility (record good_roll { roll_count = pos 2 })).reason_codes
        ≡ "maximum_roll_count_reached" ∷ [])
unfolding evaluate_roll_eligibility
run-evaluate_roll_eligibility = (refl, refl)
