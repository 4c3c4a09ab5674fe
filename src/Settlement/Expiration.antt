-- ===== src/Settlement/Expiration.antt =====
-- `process_expiration` of backend/backtesting/execution.py: when a position settles, and what it
-- then delivers.
use text.Mathlib.Text.{◌==◌ as str_eq}
use option_research_platform.Base.{
  ◌≡◌, refl, inl, inr, Bool, true, false, Option, none, some, arith, if◌then◌else◌, Bool-cases,
  ◌&&◌, ◌||◌, not, ◌⊎◌,
}
use option_research_platform.Base.Int.{ℤ, pos, ◌≤ℤ◌, max_ℤ, ltb_ℤ, leb_ℤ}
use option_research_platform.Base.Value.{Amount}
use option_research_platform.Settlement.Decisions.{
  ExerciseDecision, exercise_ruling, assigned_quantity, short_assignment_decision,
  long_exercise_decision, assignment_risk,
}
use option_research_platform.Settlement.Postings.{
  ExpirationRequest, process_expiration, finish, settlement_request, expire, SettlementRequest,
  settle, settled_result, should_settle, held, worthless,
}
use option_research_platform.Settlement.Deliveries.{
  outcome_of, contracts_of, IsLeft, IsDelivered, outcome_of-conserves,
}

abbrev pub exercise_of : ExpirationRequest → ExerciseDecision
exercise_of q = long_exercise_decision q.position q.fees q.interest_rate q.exercise_threshold

ruling_lem :
    (m p f : Bool) → (m && (str_eq (exercise_ruling m p f).0 "exercise" || false)) ≡ (m && p)
unfolding exercise_ruling
ruling_lem false p f = refl
ruling_lem true true f = refl
ruling_lem true false true = refl
ruling_lem true false false = refl

positive_lem : (a : Amount) → ltb_ℤ (pos 0) a ≡ not (leb_ℤ a (pos 0))
positive_lem a = ground arith

outcome_lem :
    (r : SettlementRequest)
    → (m p : Bool) → (k n : ℤ) → (p ≡ true → k ≡ n)
    → (if m && p then settled_result r k else worthless r)
      ≡ outcome_of r (if m then if p then some n else none else none)
outcome_lem r true true k n h = rw (h refl) refl
outcome_lem r true false k n h = refl
outcome_lem r false p k n h = refl

-- What is exercised is in the money, so that the second test of it in `settle` is the same.
exercises_lem :
    (q : ExpirationRequest)
    → should_settle (expire q) (some (exercise_of q)) none
      ≡ ((expire q).in_the_money && ltb_ℤ (pos 0) (exercise_of q).economic_edge)
unfolding long_exercise_decision exercise_ruling
exercises_lem q = ruling_lem (expire q).in_the_money _ _

module _ (draws_half : ℤ → Bool) where
  assigned_bounds :
      (n : ℤ)
      → (s : Option ℤ)
      → (pos 0 ≤ℤ assigned_quantity draws_half n s)
        × (assigned_quantity draws_half n s ≤ℤ max_ℤ (pos 0) n)
  unfolding assigned_quantity
  assigned_bounds n s = ground arith

  assigns_lem :
      (q : ExpirationRequest)
      → should_settle
          (expire q)
          none
          (some (short_assignment_decision draws_half q.position q.seeded_assignment))
        ≡ ((expire q).in_the_money && ltb_ℤ (pos 0) (assignment_risk q.position))
  unfolding short_assignment_decision
  assigns_lem q = elim (Bool-cases (leb_ℤ (assignment_risk q.position) (pos 0))) [
    | inl h ↦ rw h (rw (positive_lem (assignment_risk q.position)) (rw h refl))
    | inr h ↦ rw h (rw (positive_lem (assignment_risk q.position)) (rw h refl))
  ]

  assigned_when :
      (q : ExpirationRequest)
      → ltb_ℤ (pos 0) (assignment_risk q.position) ≡ true
      → (short_assignment_decision draws_half q.position q.seeded_assignment).assignment_quantity
        ≡ assigned_quantity draws_half q.position.quantity q.seeded_assignment
  unfolding short_assignment_decision
  assigned_when q h = elim (Bool-cases (leb_ℤ (assignment_risk q.position) (pos 0))) [
    | inl k ↦ absurd (ground arith)
    | inr k ↦ rw k refl
  ]

  -- The contracts of a position that settle at its expiration: all of a long position that is in the money and
  -- worth exercising after its costs, the assigned ones of a short position in the money with a positive
  -- risk of assignment, and none of any other.
  unfoldable pub settling : ExpirationRequest → Option ℤ
  settling q =
      if (expire q).in_the_money
      then if q.is_long
        then if ltb_ℤ (pos 0) (exercise_of q).economic_edge
          then some (max_ℤ (pos 0) q.position.quantity)
          else none
        else if ltb_ℤ (pos 0) (assignment_risk q.position)
        then some (assigned_quantity draws_half q.position.quantity q.seeded_assignment)
        else none
      else none

  by_side :
      (q : ExpirationRequest)
      → (long : Bool)
      → (if long
          then finish q (some (exercise_of q)) none
          else finish q none (
              some
                (short_assignment_decision draws_half q.position q.seeded_assignment))).settlement
        ≡ outcome_of (settlement_request q) (
            if (expire q).in_the_money
            then if long
              then if ltb_ℤ (pos 0) (exercise_of q).economic_edge
                then some (max_ℤ (pos 0) q.position.quantity)
                else none
              else if ltb_ℤ (pos 0) (assignment_risk q.position)
              then some (assigned_quantity draws_half q.position.quantity q.seeded_assignment)
              else none
            else none)
  unfolding finish settle
  by_side q true = rw (exercises_lem q) (
      outcome_lem (settlement_request q) (expire q).in_the_money
        (ltb_ℤ (pos 0) (exercise_of q).economic_edge) (max_ℤ (pos 0) q.position.quantity)
        (max_ℤ (pos 0) q.position.quantity) (λ h. refl))
  by_side q false = rw (assigns_lem q) (
      outcome_lem (settlement_request q) (expire q).in_the_money
        (ltb_ℤ (pos 0) (assignment_risk q.position))
        (short_assignment_decision draws_half q.position q.seeded_assignment).assignment_quantity
        (assigned_quantity draws_half q.position.quantity q.seeded_assignment) (assigned_when q))

  -- At expiration a long position settles in full when it is in the money and its exercise pays, a
  -- short one settles for the assigned contracts when it is in the money and the risk of assignment
  -- is positive, and every other position expires worthless with all its contracts left.
  pub process_expiration_settlement :
      (q : ExpirationRequest)
      → (process_expiration draws_half q).settlement
        ≡ outcome_of (settlement_request q) (settling q)
  unfolding process_expiration settling
  process_expiration_settlement q = by_side q q.is_long

  settling_bounds :
      (q : ExpirationRequest)
      → (pos 0 ≤ℤ contracts_of (settling q))
        × (contracts_of (settling q) ≤ℤ max_ℤ (pos 0) q.position.quantity)
  unfolding settling
  settling_bounds q = ground (arith, assigned_bounds q.position.quantity q.seeded_assignment)

  -- The contracts left after an expiration are between none and those held. Where the position does
  -- not settle, all are left and neither shares nor cash move. Where it settles in shares, it delivers
  -- or receives those of exactly the contracts that are not left, at the strike, and pays the fees.
  -- Where it settles in cash, it moves no shares, and the intrinsic value of all contracts held, also of
  -- those that are left, less the fees.
  pub process_expiration_conserves :
      (q : ExpirationRequest)
      → let s = (process_expiration draws_half q).settlement in
        let r = settlement_request q in
        (pos 0 ≤ℤ s.residual_contracts)
        × (s.residual_contracts ≤ℤ held r)
        × (IsLeft r s ⊎ IsDelivered r s)
  process_expiration_conserves q = rw (process_expiration_settlement q) (
      outcome_of-conserves (settlement_request q) (settling q) (settling_bounds q).0
        (settling_bounds q).1)
