-- ===== src/Settlement/Decisions.antt =====
-- The decisions of `SettlementEngine` (backend/backtesting/settlement.py): whether an expiring
-- option is in the money, whether a long holder exercises, whether a short writer is assigned,
-- and the dividend and pin-risk reports. Of the metadata the two entries that the code reads are
-- kept. The first draw of `Random(seed)` is the parameter `draws_half`: whether it is below 0.5.
use text.Mathlib.Text.{◌==◌ as str_eq}
use option_research_platform.Base.{
  Bool, true, false, not, String, Option, none, some, List, [], ◌∷◌, ◌++◌, if◌then◌else◌, ◌&&◌, ◌/◌,
}
use option_research_platform.Base.Int.{
  ℤ, pos, pos_part, ◌+ℤ◌, ◌-ℤ◌, ◌*ℤ◌, max_ℤ, abs_ℤ, ltb_ℤ, leb_ℤ,
}
use option_research_platform.Base.Value.{Amount, of_int, times, over, places}
use option_research_platform.Base.Time.{Datetime, ensure_aware}

pub record ContractMetadata : Type 0 where
  pub option_type : Option String
  pub settlement_type : Option String

pub record ExpirationProcessingResult : Type 0 where
  pub status : String
  pub intrinsic_value : Amount
  pub in_the_money : Bool
  pub cash_settled : Bool
  pub physically_settled : Bool

pub record ExerciseDecision : Type 0 where
  pub decision : String
  pub rationale : String
  pub economic_edge : Amount

pub record AssignmentDecision : Type 0 where
  pub decision : String
  pub partial_assignment : Bool
  pub assignment_quantity : ℤ
  pub rationale : String
  pub risk_score : Amount

-- `dict.get(key, default)`
abbrev pub text_or : String → Option String → String
text_or default none = default
text_or default (some s) = s

abbrev pub is_call : ContractMetadata → Bool
is_call metadata = str_eq (text_or "call" metadata.option_type) "call"

abbrev pub is_cash : ContractMetadata → Bool
is_cash metadata = str_eq (text_or "physical" metadata.settlement_type) "cash"

-- The intrinsic value of one option, which three methods compute.
unfoldable pub intrinsic_per : ContractMetadata → Amount → Amount → Amount
intrinsic_per metadata underlying strike =
    if is_call metadata
    then max_ℤ (pos 0) (underlying -ℤ strike)
    else max_ℤ (pos 0) (strike -ℤ underlying)

unfoldable pub expiration_decision :
    ContractMetadata → Amount → Amount → ℤ → Amount → ExpirationProcessingResult
unfolding intrinsic_per
expiration_decision metadata underlying strike quantity exercise_threshold =
    let intrinsic = intrinsic_per metadata underlying strike in
    let in_the_money = leb_ℤ (max_ℤ (pos 0) exercise_threshold) intrinsic in
    record {
      status = if in_the_money then "itm" else "otm";
      intrinsic_value = intrinsic *ℤ max_ℤ (pos 1) quantity;
      in_the_money = in_the_money;
      cash_settled = is_cash metadata;
      physically_settled = not (is_cash metadata);
    }

-- `dividend_amount or 0.0`, and the seed 0 where none is given
abbrev pub or_zero : Option Amount → Amount
or_zero none = pos 0
or_zero (some a) = a

-- The arguments that the two decisions share.
pub record OptionPosition : Type 0 where
  pub metadata : ContractMetadata
  pub underlying_price : Amount
  pub strike : Amount
  pub quantity : ℤ
  pub remaining_extrinsic : Amount
  pub dividend_amount : Option Amount

-- `max(0.0, interest_rate) * strike * max(1, quantity) / 365.0`
abbrev pub carry_cost : OptionPosition → Amount → Amount
carry_cost p interest_rate =
    over (times (max_ℤ (pos 0) interest_rate) p.strike *ℤ max_ℤ (pos 1) p.quantity)
      (of_int (pos 365))

-- The decision and its rationale: by whether the option is in the money, has a positive edge, and
-- keeps a large extrinsic value.
unfoldable pub exercise_ruling : Bool → Bool → Bool → String × String
exercise_ruling in_the_money profitable extrinsic_left =
    if not in_the_money
    then ("abandon", "out_of_the_money")
    else if profitable
    then ("exercise", "intrinsic_exceeds_costs")
    else if extrinsic_left
    then ("sell_to_close_preferred", "extrinsic_value_remaining")
    else ("unsupported_or_ambiguous", "insufficient_economic_signal")

unfoldable pub long_exercise_decision : OptionPosition → Amount → Amount → Amount → ExerciseDecision
unfolding expiration_decision exercise_ruling times over
long_exercise_decision p transaction_costs interest_rate exercise_threshold =
    let expiration =
      expiration_decision p.metadata p.underlying_price p.strike p.quantity exercise_threshold in
    let intrinsic = expiration.intrinsic_value in
    let dividend_value = max_ℤ (pos 0) (or_zero p.dividend_amount) in
    let edge =
      intrinsic
      +ℤ dividend_value
      -ℤ p.remaining_extrinsic
      -ℤ transaction_costs
      -ℤ carry_cost p interest_rate in
    let ruling =
      exercise_ruling expiration.in_the_money (ltb_ℤ (pos 0) edge)
        (ltb_ℤ (times intrinsic (pos 20000000)) p.remaining_extrinsic) in
    record { decision = ruling.0; rationale = ruling.1; economic_edge = edge }

-- The score of `short_assignment_decision`, with its two increments.
unfoldable pub assignment_risk : OptionPosition → Amount
unfolding intrinsic_per times
assignment_risk p =
    let intrinsic = intrinsic_per p.metadata p.underlying_price p.strike in
    let dividend = or_zero p.dividend_amount in
    let base = intrinsic -ℤ max_ℤ (pos 0) p.remaining_extrinsic in
    let with_dividend =
      if is_call p.metadata && (ltb_ℤ (pos 0) dividend && ltb_ℤ p.remaining_extrinsic dividend)
      then base +ℤ dividend
      else base in
    if str_eq (text_or "call" p.metadata.option_type) "put"
      && ltb_ℤ (times p.strike (pos 10000000)) intrinsic
    then with_dividend +ℤ pos places
    else with_dividend

module _ (draws_half : ℤ → Bool) where
  -- `int(max(0, quantity) * partial_ratio)`
  unfoldable pub assigned_quantity : ℤ → Option ℤ → ℤ
  assigned_quantity quantity seeded_policy =
      let held = pos_part (max_ℤ (pos 0) quantity) in
      if draws_half (or_zero seeded_policy) then pos (held / 2) else pos held

  unfoldable pub short_assignment_decision : OptionPosition → Option ℤ → AssignmentDecision
  unfolding assigned_quantity assignment_risk
  short_assignment_decision p seeded_policy =
      let risk = assignment_risk p in
      let assigned = assigned_quantity p.quantity seeded_policy in
      if leb_ℤ risk (pos 0)
      then record {
        decision = "no_assignment";
        partial_assignment = false;
        assignment_quantity = pos 0;
        rationale = "low_assignment_risk";
        risk_score = risk;
      }
      else record {
        decision = "assign";
        partial_assignment = ltb_ℤ (pos 0) assigned && ltb_ℤ assigned p.quantity;
        assignment_quantity = assigned;
        rationale = "economic_assignment_risk";
        risk_score = risk;
      }

pub record DividendSettlement : Type 0 where
  pub amount : Amount
  pub direction : String
  pub ex_date : Datetime
  pub record_date : Option Datetime
  pub payable_date : Option Datetime
  pub special_dividend : Bool

abbrev pub aware_date : Option Datetime → Option Datetime
aware_date none = none
aware_date (some d) = some (ensure_aware d)

unfoldable pub dividend_settlement :
    Datetime → ℤ → Amount → Bool → Option Datetime → Option Datetime → Bool → DividendSettlement
dividend_settlement timestamp shares dividend special record_date payable_date already_adjusted =
    record {
      amount = if already_adjusted then pos 0 else shares *ℤ dividend;
      direction =
          if already_adjusted then "none" else if leb_ℤ (pos 0) shares then "credit" else "debit";
      ex_date = ensure_aware timestamp;
      record_date = aware_date record_date;
      payable_date = aware_date payable_date;
      special_dividend = special;
    }

pub record PinRiskDiagnostic : Type 0 where
  pub at_risk : Bool
  pub within_band : Bool
  pub warning_codes : List String

abbrev pub codes_if : Bool → List String → List String
codes_if true codes = codes
codes_if false codes = []

unfoldable pub pin_risk : Amount → Amount → Amount → Bool → Bool → PinRiskDiagnostic
pin_risk underlying strike band has_partial_assignment settlement_complete =
    let within = leb_ℤ (abs_ℤ (underlying -ℤ strike)) (max_ℤ (pos 0) band) in
    let codes =
      codes_if within ("near_strike_expiration" ∷ "after_hours_move_uncertain" ∷ [])
      ++ (codes_if has_partial_assignment ("partial_assignment_possible" ∷ [])
          ++ codes_if (not settlement_complete) ("incomplete_settlement_data" ∷ [])) in
    record {
      at_risk = elim codes [ [] ↦ false | c ∷ cs ↦ true ];
      within_band = within;
      warning_codes = codes;
    }
