-- ===== src/Settlement/Postings.antt =====
-- `settle` of `SettlementEngine` (backend/backtesting/settlement.py): the postings of an expired
-- position, and `process_expiration` of backend/backtesting/execution.py, which decides and settles.
use text.Mathlib.Text.{◌==◌ as str_eq}
use option_research_platform.Base.{
  Bool, true, false, String, Option, none, some, List, [], ◌∷◌, ◌++◌, if◌then◌else◌, ◌&&◌, ◌||◌,
}
use option_research_platform.Base.Int.{ℤ, pos, negsuc, ◌+ℤ◌, ◌-ℤ◌, ◌*ℤ◌, max_ℤ, abs_ℤ, neg, leb_ℤ}
use option_research_platform.Base.Value.{Amount, truncate, times}
use option_research_platform.Settlement.Decisions.{
  ContractMetadata, ExpirationProcessingResult, ExerciseDecision, AssignmentDecision,
  OptionPosition, PinRiskDiagnostic, is_call, is_cash, intrinsic_per, expiration_decision,
  long_exercise_decision, short_assignment_decision, pin_risk,
}

pub record SettlementPosting : Type 0 where
  pub posting_type : String
  pub amount : Amount
  pub quantity : ℤ

pub record SettlementResult : Type 0 where
  pub postings : List SettlementPosting
  pub realized_pnl : Amount
  pub stock_position_change : ℤ
  pub cost_basis_change : Amount
  pub residual_contracts : ℤ
  pub reconciled : Bool

pub record SettlementRequest : Type 0 where
  pub metadata : ContractMetadata
  pub underlying_price : Amount
  pub strike : Amount
  pub quantity : ℤ
  pub multiplier : Amount
  pub is_long : Bool
  pub fees : Amount

abbrev pub exercises : Option ExerciseDecision → Bool
exercises none = false
exercises (some e) = str_eq e.decision "exercise"

abbrev pub assigns : Option AssignmentDecision → Bool
assigns none = false
assigns (some a) = str_eq a.decision "assign"

abbrev pub both_missing : Option ExerciseDecision → Option AssignmentDecision → Bool
both_missing none none = true
both_missing none (some a) = false
both_missing (some e) a = false

abbrev pub should_settle :
    ExpirationProcessingResult → Option ExerciseDecision → Option AssignmentDecision → Bool
should_settle expiration exercise assignment =
    expiration.in_the_money
    && (exercises exercise || (assigns assignment || both_missing exercise assignment))

-- `sum(item.amount for item in postings)`, from the left
unfoldable pub sum_amounts : Amount → List SettlementPosting → Amount
sum_amounts total [] = total
sum_amounts total (p ∷ rest) = sum_amounts (total +ℤ p.amount) rest

abbrev pub posting : String → Amount → ℤ → SettlementPosting
posting kind amount quantity = record { posting_type = kind; amount = amount; quantity = quantity }

-- `1 if is_long else -1`
abbrev pub sign : Bool → ℤ
sign true = pos 1
sign false = negsuc 0

abbrev pub held : SettlementRequest → ℤ
held r = max_ℤ (pos 0) r.quantity

abbrev pub settle_quantity : SettlementRequest → Option AssignmentDecision → ℤ
settle_quantity r none = held r
settle_quantity r (some a) = a.assignment_quantity

-- `int(settle_qty * multiplier)`: an int times a float.
unfoldable pub shares_of : SettlementRequest → ℤ → ℤ
unfolding truncate
shares_of r settled = truncate (settled *ℤ r.multiplier)

abbrev pub stock_change : SettlementRequest → ℤ → ℤ
stock_change r settled =
    if is_call r.metadata
    then shares_of r settled *ℤ sign r.is_long
    else neg (shares_of r settled) *ℤ sign r.is_long

abbrev pub strike_cash : SettlementRequest → ℤ → Amount
strike_cash r settled =
    if is_call r.metadata
    then neg r.strike *ℤ shares_of r settled *ℤ sign r.is_long
    else r.strike *ℤ shares_of r settled *ℤ sign r.is_long

-- `intrinsic_per * qty * multiplier * signed`
abbrev pub cash_move : SettlementRequest → Amount
cash_move r =
    times (intrinsic_per r.metadata r.underlying_price r.strike *ℤ held r) r.multiplier
    *ℤ sign r.is_long

abbrev pub movements : SettlementRequest → ℤ → List SettlementPosting
movements r settled =
    if is_cash r.metadata
    then posting "cash_settlement" (cash_move r) settled ∷ []
    else posting "stock_position_change" (pos 0) (stock_change r settled)
      ∷ posting "strike_cash_movement" (strike_cash r settled) settled
      ∷ []

abbrev pub worthless : SettlementRequest → SettlementResult
worthless r = record {
  postings = posting "expiration_worthless" (pos 0) (held r) ∷ [];
  realized_pnl = pos 0;
  stock_position_change = pos 0;
  cost_basis_change = pos 0;
  residual_contracts = held r;
  reconciled = true;
}

unfoldable pub settled_result : SettlementRequest → ℤ → SettlementResult
unfolding sum_amounts shares_of intrinsic_per times
settled_result r settled =
    let postings = movements r settled ++ posting "fees" (neg (abs_ℤ r.fees)) settled ∷ [] in
    let realized = sum_amounts (pos 0) postings in
    let residual = max_ℤ (pos 0) (held r -ℤ settled) in
    record {
      postings = postings;
      realized_pnl = realized;
      stock_position_change = if is_cash r.metadata then pos 0 else stock_change r settled;
      cost_basis_change = realized;
      residual_contracts = residual;
      reconciled = leb_ℤ (pos 0) residual;
    }

-- `settle`
unfoldable pub settle :
    SettlementRequest
    → ExpirationProcessingResult
    → Option ExerciseDecision
    → Option AssignmentDecision
    → SettlementResult
unfolding settled_result
settle r expiration exercise assignment =
    if should_settle expiration exercise assignment
    then settled_result r (settle_quantity r assignment)
    else worthless r

-- The arguments of `process_expiration`.
pub record ExpirationRequest : Type 0 where
  pub position : OptionPosition
  pub multiplier : Amount
  pub fees : Amount
  pub interest_rate : Amount
  pub is_long : Bool
  pub exercise_threshold : Amount
  pub pin_risk_band : Amount
  pub seeded_assignment : Option ℤ

pub record ExpirationOutcome : Type 0 where
  pub expiration : ExpirationProcessingResult
  pub exercise : Option ExerciseDecision
  pub assignment : Option AssignmentDecision
  pub settlement : SettlementResult
  pub pin : PinRiskDiagnostic

abbrev pub settlement_request : ExpirationRequest → SettlementRequest
settlement_request q = record {
  metadata = q.position.metadata;
  underlying_price = q.position.underlying_price;
  strike = q.position.strike;
  quantity = q.position.quantity;
  multiplier = q.multiplier;
  is_long = q.is_long;
  fees = q.fees;
}

abbrev pub is_partial : Option AssignmentDecision → Bool
is_partial none = false
is_partial (some a) = a.partial_assignment

abbrev pub expire : ExpirationRequest → ExpirationProcessingResult
expire q =
    expiration_decision q.position.metadata q.position.underlying_price q.position.strike
      q.position.quantity q.exercise_threshold

-- The settlement and the pin-risk report behind the decisions.
unfoldable pub finish :
    ExpirationRequest → Option ExerciseDecision → Option AssignmentDecision → ExpirationOutcome
unfolding settle pin_risk
finish q exercise assignment =
    let settlement = settle (settlement_request q) (expire q) exercise assignment in
    record {
      expiration = expire q;
      exercise = exercise;
      assignment = assignment;
      settlement = settlement;
      pin =
          pin_risk q.position.underlying_price q.position.strike q.pin_risk_band
            (is_partial assignment) settlement.reconciled;
    }

module _ (draws_half : ℤ → Bool) where
  -- `ExerciseAssignmentOrchestrator.process_expiration`
  unfoldable pub process_expiration : ExpirationRequest → ExpirationOutcome
  unfolding finish
  process_expiration q =
      if q.is_long
      then finish q
          (some (long_exercise_decision q.position q.fees q.interest_rate q.exercise_threshold))
          none
      else finish q none
          (some (short_assignment_decision draws_half q.position q.seeded_assignment))
