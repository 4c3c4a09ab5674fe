-- ===== src/Orchestration/Fills.antt =====
-- The plan of an entry, the reconciliation of partial fills and the eligibility of a roll,
-- backend/backtesting/orchestration.py. Metadata and diagnostics are left out; the identifier of an
-- intent, which the source prints, is given.
use option_research_platform.Base.{
  ℕ, ◌+◌, Bool, true, false, not, String, Option, none, some, List, [], ◌∷◌, ◌++◌, if◌then◌else◌,
  ◌&&◌, length,
}
use option_research_platform.Base.Int.{ℤ, pos, max_ℤ, leb_ℤ, ltb_ℤ, eqb_ℤ}
use option_research_platform.Base.Order.{Preorder, by_key, lexical, nat_order}
use option_research_platform.Base.Sort.{sorted}
use option_research_platform.Base.Text.{text_order}
use option_research_platform.Base.Value.{Amount, over, places}
use option_research_platform.Base.Dict.{get, put, string_eq}
use option_research_platform.Orchestration.{LegFillSnapshot, labels_where, total_of}

-- What the code reads of a leg of a strategy definition.
pub record Leg : Type 0 where
  pub label : String
  pub quantity_ratio : ℤ

pub record PlannedOrderIntent : Type 0 where
  pub intent_id : String
  pub leg_label : String
  pub priority : ℕ
  pub requested_quantity : ℤ

-- `enumerate(leg_priority)` as a dictionary: of a label that is listed twice the last place counts.
abbrev pub enumerate : ℕ → List String → List (String × ℕ) → List (String × ℕ)
enumerate index [] priorities = priorities
enumerate index (label ∷ rest) priorities = enumerate (index + 1) rest (put label index priorities)

-- The place of a label: the next one if it has none.
abbrev pub place_of : String → List (String × ℕ) → ℕ
place_of label priorities = elim (get label priorities) [ none ↦ length priorities | some p ↦ p ]

abbrev pub with_place : String → List (String × ℕ) → List (String × ℕ)
with_place label priorities = elim (get label priorities) [
  | none ↦ put label (length priorities) priorities
  | some p ↦ priorities
]

abbrev pub intent_order : Preorder PlannedOrderIntent
intent_order = lexical (by_key (λ i. i.priority) nat_order) (by_key (λ i. i.intent_id) text_order)

module _ (intent_id_of : ℕ → String → String) where
  -- The loop over the legs.
  abbrev pub intents_from : List (String × ℕ) → List Leg → List PlannedOrderIntent
  intents_from priorities [] = []
  intents_from priorities (leg ∷ legs) =
      record {
        intent_id = intent_id_of (place_of leg.label priorities) leg.label;
        leg_label = leg.label;
        priority = place_of leg.label priorities;
        requested_quantity = leg.quantity_ratio;
      }
      ∷ intents_from (with_place leg.label priorities) legs

  -- The intents of `create_entry_plan`; it copies its other arguments.
  unfoldable pub create_entry_plan : List Leg → List String → List PlannedOrderIntent
  create_entry_plan legs leg_priority =
      sorted intent_order (intents_from (enumerate 0 leg_priority []) legs)

pub record FillReconciliationEvent : Type 0 where
  pub filled_legs : List String
  pub residual_legs : List String
  pub strategy_fill_ratio : Amount
  pub retry_eligible : Bool
  pub timed_out : Bool
  pub cancelled : Bool
  pub failure_escalated : Bool

-- `(filled / total) if total else 0.0`
abbrev pub ratio_of : ℤ → ℤ → Amount
ratio_of filled total = if eqb_ℤ total (pos 0) then pos 0 else over filled total

-- `reconcile_partial_fills`, of the arguments that it reads.
unfoldable pub reconcile_partial_fills :
    List LegFillSnapshot → Amount → Amount → Amount → Bool → FillReconciliationEvent
reconcile_partial_fills leg_fills minimum_fill_ratio timeout elapsed
      cancellation_on_incomplete_fill =
    let total = total_of (λ item. max_ℤ (pos 0) item.original_quantity) leg_fills in
    let filled = total_of (λ item. max_ℤ (pos 0) item.filled_quantity) leg_fills in
    let ratio = ratio_of filled total in
    let timed_out = leb_ℤ timeout elapsed in
    let cancelled =
      cancellation_on_incomplete_fill && (ltb_ℤ ratio minimum_fill_ratio && timed_out) in
    record {
      filled_legs = labels_where (λ item. ltb_ℤ (pos 0) item.filled_quantity) leg_fills;
      residual_legs = labels_where (λ item. ltb_ℤ (pos 0) item.remaining_quantity) leg_fills;
      strategy_fill_ratio = ratio;
      retry_eligible = ltb_ℤ ratio (pos places) && (not cancelled && not timed_out);
      timed_out = timed_out;
      cancelled = cancelled;
      failure_escalated = timed_out && ltb_ℤ ratio minimum_fill_ratio;
    }

-- The arguments of `evaluate_roll_eligibility`.
pub record RollConditions : Type 0 where
  pub liquidity_ok : Bool
  pub target_expiration_valid : Bool
  pub target_strike_valid : Bool
  pub no_conflicting_corporate_action : Bool
  pub unsupported_expiration_imminent : Bool
  pub roll_count : ℤ
  pub maximum_roll_count : ℤ
  pub cumulative_debit : Amount
  pub maximum_cumulative_debit : Amount
  pub expected_improvement : Amount
  pub minimum_expected_improvement : Amount
  pub required_credit : Option Amount
  pub estimated_credit : Option Amount
  pub margin_placeholder_compatible : Bool
  pub quality_score : Amount
  pub quality_threshold : Amount
  pub data_complete : Bool

pub record RollEligibilityResult : Type 0 where
  pub eligible : Bool
  pub reason_codes : List String

abbrev pub reason_if : Bool → String → List String
reason_if true code = code ∷ []
reason_if false code = []

-- `required_credit is not None and (estimated_credit or 0.0) < required_credit`
abbrev pub misses_credit : Option Amount → Option Amount → Bool
misses_credit none estimated = false
misses_credit (some required) none = ltb_ℤ (pos 0) required
misses_credit (some required) (some estimated) = ltb_ℤ estimated required

abbrev pub roll_reasons : RollConditions → List String
roll_reasons c =
    reason_if (not c.liquidity_ok) "insufficient_liquidity"
    ++ (reason_if (not c.target_expiration_valid) "invalid_target_expiration"
        ++ (reason_if (not c.target_strike_valid) "invalid_target_strike"
            ++ (reason_if (not c.no_conflicting_corporate_action) "conflicting_corporate_action"
                ++ (reason_if c.unsupported_expiration_imminent "unsupported_expiration_imminent"
                    ++ (reason_if (leb_ℤ c.maximum_roll_count c.roll_count)
                          "maximum_roll_count_reached"
                        ++ (reason_if (ltb_ℤ c.maximum_cumulative_debit c.cumulative_debit)
                              "maximum_cumulative_debit_exceeded"
                            ++ (reason_if
                                  (ltb_ℤ c.expected_improvement c.minimum_expected_improvement)
                                  "minimum_expected_improvement_not_met"
                                ++ (reason_if (misses_credit c.required_credit c.estimated_credit)
                                      "required_credit_not_met"
                                    ++ (reason_if (not c.margin_placeholder_compatible)
                                          "margin_placeholder_incompatible"
                                        ++ (reason_if (ltb_ℤ c.quality_score c.quality_threshold)
                                              "quality_score_threshold_not_met"
                                            ++ reason_if (not c.data_complete)
                                                "data_incomplete"))))))))))

abbrev pub is_none_given : List String → Bool
is_none_given [] = true
is_none_given (x ∷ xs) = false

-- `evaluate_roll_eligibility`
unfoldable pub evaluate_roll_eligibility : RollConditions → RollEligibilityResult
evaluate_roll_eligibility c = record {
  eligible = is_none_given (roll_reasons c);
  reason_codes = roll_reasons c;
}
