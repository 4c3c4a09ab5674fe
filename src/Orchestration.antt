-- ===== src/Orchestration.antt =====
-- The checks of a position of several legs, backend/backtesting/orchestration.py: its integrity and its
-- expiration. The rounding of an amount to six places is the parameter `round_six`. Details and
-- diagnostics are left out.
mod Fills
mod Retries
mod Integrity
mod Partition
mod Tests
use text.Mathlib.Text.{◌==◌ as str_eq}
use option_research_platform.Base.{
  Bool, true, false, not, String, Option, none, some, List, [], ◌∷◌, ◌++◌, map, select,
  if◌then◌else◌, ◌&&◌,
}
use option_research_platform.Base.Int.{ℤ, pos, ◌+ℤ◌, max_ℤ, leb_ℤ, ltb_ℤ, eqb_ℤ}
use option_research_platform.Base.Value.{Amount, over, places}
use option_research_platform.Base.Text.{text_in}

-- What the code reads of a `LegFillSnapshot`.
pub record LegFillSnapshot : Type 0 where
  pub leg_label : String
  pub original_quantity : ℤ
  pub filled_quantity : ℤ
  pub remaining_quantity : ℤ
  pub intrinsic_value : Option Amount
  pub lifecycle_status : String

abbrev pub labels_where : (LegFillSnapshot → Bool) → List LegFillSnapshot → List String
labels_where test legs = map (λ leg. leg.leg_label) (select test legs)

abbrev pub total_of : (LegFillSnapshot → ℤ) → List LegFillSnapshot → ℤ
total_of f [] = pos 0
total_of f (leg ∷ rest) = f leg +ℤ total_of f rest

pub record IntegrityFailure : Type 0 where
  pub reason_code : String
  pub leg_label : Option String

abbrev pub failure_if : Bool → String → Option String → List IntegrityFailure
failure_if true code label = record { reason_code = code; leg_label = label } ∷ []
failure_if false code label = []

-- `len(labels) != len(set(labels))`
unfoldable pub has_duplicate : List String → Bool
has_duplicate [] = false
has_duplicate (x ∷ rest) =
    let others = has_duplicate rest in if text_in x rest then true else others

abbrev pub leg_failures : LegFillSnapshot → List IntegrityFailure
leg_failures leg =
    failure_if (ltb_ℤ leg.remaining_quantity (pos 0)) "negative_remaining_quantity"
      (some leg.leg_label)
    ++ failure_if (str_eq leg.lifecycle_status "closed" && ltb_ℤ (pos 0) leg.remaining_quantity)
        "closed_leg_marked_open" (some leg.leg_label)

abbrev pub failures_of_legs : List LegFillSnapshot → List IntegrityFailure
failures_of_legs [] = []
failures_of_legs (leg ∷ rest) = leg_failures leg ++ failures_of_legs rest

module _ (round_six : Amount → Amount) where
  unfoldable pub integrity_failures :
      String → List LegFillSnapshot → Amount → Amount → List IntegrityFailure
  unfolding has_duplicate
  integrity_failures position_status legs balance expected =
      failure_if (has_duplicate (map (λ leg. leg.leg_label) legs)) "duplicate_active_leg_identifier"
        none
      ++ (failures_of_legs legs
          ++ (failure_if
                (str_eq position_status "closed"
                  && ltb_ℤ (pos 0) (total_of (λ leg. leg.remaining_quantity) legs))
                "position_closed_with_open_legs" none
              ++ failure_if (not (eqb_ℤ (round_six balance) (round_six expected)))
                  "cash_ledger_not_reconciled" none))

pub record ExpirationOrchestrationResult : Type 0 where
  pub expired_legs : List String
  pub worthless_legs : List String
  pub surviving_legs : List String
  pub broken_structure : Bool
  pub pending_exercise_or_assignment_required : Bool
  pub residual_exposure_detected : Bool
  pub follow_up_management_event_required : Bool

module _ {A : Type 0} where
  -- `bool(xs)`
  abbrev pub any : List A → Bool
  any [] = false
  any (x ∷ xs) = true

abbrev pub is_worthless : Option Amount → Bool
is_worthless none = false
is_worthless (some v) = leb_ℤ v (pos 0)

abbrev pub is_expired : LegFillSnapshot → Bool
is_expired leg = eqb_ℤ leg.remaining_quantity (pos 0)

abbrev pub is_surviving : LegFillSnapshot → Bool
is_surviving leg = ltb_ℤ (pos 0) leg.remaining_quantity

unfoldable pub orchestrate_expiration : List LegFillSnapshot → ExpirationOrchestrationResult
orchestrate_expiration legs =
    let expired = labels_where is_expired legs in
    let surviving = labels_where is_surviving legs in
    record {
      expired_legs = expired;
      worthless_legs = labels_where (λ leg. is_worthless leg.intrinsic_value) legs;
      surviving_legs = surviving;
      broken_structure = any surviving && any expired;
      pending_exercise_or_assignment_required = any expired;
      residual_exposure_detected = any surviving;
      follow_up_management_event_required = any surviving;
    }
