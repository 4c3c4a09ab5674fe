-- ===== src/Lifecycle/Guards/Laws.antt =====
-- What every evaluation of the guard library satisfies, and what an accepted transition says of
-- the guards that were evaluated for it.
use option_research_platform.Base.{
  true, String, Option, none, some, List, [], ◌∷◌, ◌≡◌, ◌↔◌, arith, if◌then◌else◌, ◌≢◌, ◌⊎◌, inl,
  inr, ◌++◌, refl,
}
use option_research_platform.Base.Value.{Context, Amount}
use option_research_platform.Base.Int.{ℤ, leb_ℤ}
use option_research_platform.Base.Result.{err}
use option_research_platform.Base.Options.{◌>>=◌}
use option_research_platform.Lifecycle.States.{
  GuardName, data_available, market_open, quote_freshness, liquidity_threshold, bid_ask_width,
  capital_available, strategy_validity, leg_compatibility, expiration_ordering,
  exercise_style_compatibility, minimum_quality_score, no_conflicting_lifecycle_action,
  no_duplicate_order_intent, no_look_ahead_compliance, maximum_open_positions,
  event_risk_restrictions, earnings_window_restrictions, corporate_action_restrictions,
}
use option_research_platform.Lifecycle.Machine.{
  GuardResult, StrategyStateMachine, TransitionRequest, ChecksumPayload, transition, failed_guards,
  TransitionError,
}
use option_research_platform.Lifecycle.History.{transition-Accepts_iff}
use option_research_platform.Lifecycle.Guards.{
  number_of, open_positions_result, bool_guard, minimum_guard, maximum_guard, max_open_positions,
  evaluate, GuardEvaluationRequest, threshold_result,
}
use option_research_platform.Lifecycle.Guards.Criteria.{
  holds, at_least, at_most, criterion, refusal, Ordered, Before, count_of, Meets, IsUnreadable,
}

-- The answer for a guard: it raises only where a number is missing, and passes exactly where the
-- criterion is met, with the reason that belongs to it.
abbrev Answers : GuardName → Type 0 → Type 0 → Option GuardResult → Type 0
Answers guard met unreadable none = unreadable
Answers guard met unreadable (some g) =
    (g.guard ≡ guard)
    × ((g.passed ≡ true) ↔ met)
    × (g.reason_code ≡ (if g.passed then "ok" else refusal guard))

abbrev pub Reports : GuardName → Context → Option GuardResult → Type 0
Reports guard ctx o =
    Answers guard (Meets (criterion guard) ctx) (IsUnreadable (criterion guard) ctx) o

module _ (guard : GuardName) where
  bool_guard-Reports :
      (key : String) (ctx : Context)
      → Answers guard
          (Meets (holds key) ctx)
          (IsUnreadable (holds key) ctx)
          (bool_guard guard key (refusal guard) ctx)
  unfolding bool_guard
  bool_guard-Reports key ctx = (refl, (λ h. h, λ h. h), refl)

  at_least_lem :
      (x y : Option Amount)
      → Answers guard
          (Ordered y x)
          ((x ≡ none) ⊎ (y ≡ none))
          (x >>= λ a. y >>= λ b. some (threshold_result guard (refusal guard) (leb_ℤ b a) a b))
  at_least_lem none y = inl refl
  at_least_lem (some a) none = inr refl
  at_least_lem (some a) (some b) = (refl, (λ h. ground arith, λ h. ground arith), refl)

  at_most_lem :
      (x y : Option Amount)
      → Answers guard
          (Ordered x y)
          ((x ≡ none) ⊎ (y ≡ none))
          (x >>= λ a. y >>= λ b. some (threshold_result guard (refusal guard) (leb_ℤ a b) a b))
  at_most_lem none y = inl refl
  at_most_lem (some a) none = inr refl
  at_most_lem (some a) (some b) = (refl, (λ h. ground arith, λ h. ground arith), refl)

  minimum_guard-Reports :
      (a b : String) (ctx : Context)
      → Answers guard
          (Meets (at_least a b) ctx)
          (IsUnreadable (at_least a b) ctx)
          (minimum_guard guard a b (refusal guard) ctx)
  unfolding minimum_guard
  minimum_guard-Reports a b ctx = at_least_lem (number_of a ctx) (number_of b ctx)

  maximum_guard-Reports :
      (a b : String) (ctx : Context)
      → Answers guard
          (Meets (at_most a b) ctx)
          (IsUnreadable (at_most a b) ctx)
          (maximum_guard guard a b (refusal guard) ctx)
  unfolding maximum_guard
  maximum_guard-Reports a b ctx = at_most_lem (number_of a ctx) (number_of b ctx)

below_lem :
    (x y : Option ℤ)
    → Answers maximum_open_positions
        (Before x y)
        ((x ≡ none) ⊎ (y ≡ none))
        (x >>= λ a. y >>= λ b. some (open_positions_result a b))
below_lem none y = inl refl
below_lem (some a) none = inr refl
below_lem (some a) (some b) = (refl, (λ h. ground arith, λ h. ground arith), refl)

max_open_positions-Reports :
    (ctx : Context) → Reports maximum_open_positions ctx (max_open_positions ctx)
unfolding max_open_positions
max_open_positions-Reports ctx =
    below_lem (count_of "open_positions" ctx) (count_of "maximum_open_positions" ctx)

handler-Reports :
    (guard : GuardName) (ctx : Context)
    → Reports guard ctx (evaluate (record { guard = guard; context = ctx }))
unfolding evaluate
handler-Reports data_available ctx = bool_guard-Reports data_available _ ctx
handler-Reports market_open ctx = bool_guard-Reports market_open _ ctx
handler-Reports quote_freshness ctx = maximum_guard-Reports quote_freshness _ _ ctx
handler-Reports liquidity_threshold ctx = minimum_guard-Reports liquidity_threshold _ _ ctx
handler-Reports bid_ask_width ctx = maximum_guard-Reports bid_ask_width _ _ ctx
handler-Reports capital_available ctx = minimum_guard-Reports capital_available _ _ ctx
handler-Reports strategy_validity ctx = bool_guard-Reports strategy_validity _ ctx
handler-Reports leg_compatibility ctx = bool_guard-Reports leg_compatibility _ ctx
handler-Reports expiration_ordering ctx = bool_guard-Reports expiration_ordering _ ctx
handler-Reports exercise_style_compatibility ctx =
    bool_guard-Reports exercise_style_compatibility _ ctx
handler-Reports minimum_quality_score ctx = minimum_guard-Reports minimum_quality_score _ _ ctx
handler-Reports no_conflicting_lifecycle_action ctx =
    bool_guard-Reports no_conflicting_lifecycle_action _ ctx
handler-Reports no_duplicate_order_intent ctx = bool_guard-Reports no_duplicate_order_intent _ ctx
handler-Reports no_look_ahead_compliance ctx = bool_guard-Reports no_look_ahead_compliance _ ctx
handler-Reports maximum_open_positions ctx = max_open_positions-Reports ctx
handler-Reports event_risk_restrictions ctx = bool_guard-Reports event_risk_restrictions _ ctx
handler-Reports earnings_window_restrictions ctx =
    bool_guard-Reports earnings_window_restrictions _ ctx
handler-Reports corporate_action_restrictions ctx =
    bool_guard-Reports corporate_action_restrictions _ ctx

-- Every guard of the enumeration is evaluated by its own criterion: a flag of the context is set, a
-- number reaches its minimum, keeps within its maximum, or is below its limit. An evaluation raises
-- only where a number that is compared is missing. Otherwise it reports under the guard that was asked
-- for, passes exactly when the criterion is met, and gives the reason "ok" when it passes and the
-- guard's own reason when it does not.
pub evaluate-Reports :
    (request : GuardEvaluationRequest) → Reports request.guard request.context (evaluate request)
evaluate-Reports request = handler-Reports request.guard request.context

failed_guards-append :
    (xs ys : List GuardResult) (g : GuardResult)
    → failed_guards (xs ++ g ∷ ys) ≡ []
    → g.passed ≡ true
failed_guards-append [] ys g h = ground arith
failed_guards-append (x ∷ xs) ys g h = ground (arith, failed_guards-append xs ys g)

passed-of-Reports :
    (guard : GuardName) (ctx : Context) (o : Option GuardResult) (g : GuardResult)
    → Reports guard ctx o
    → o ≡ some g
    → g.passed ≡ true
    → g.reason_code ≡ "ok"
passed-of-Reports guard ctx none g h e p = cc
passed-of-Reports guard ctx (some x) g h e p = ground (arith, h.1.1)

-- A transition that is asked for with the result of an evaluation whose reason is not "ok" is
-- refused, whatever the other results, and the machine stays as it was.
pub refused_guard_blocks :
    (digest : ChecksumPayload → String) (q : GuardEvaluationRequest) (g : GuardResult)
    (xs ys : List GuardResult) (r : TransitionRequest) (m : StrategyStateMachine)
    → evaluate q ≡ some g
    → g.reason_code ≢ "ok"
    → r.guard_results ≡ xs ++ g ∷ ys
    → (e : TransitionError) × (transition digest r m ≡ (err e, m))
refused_guard_blocks digest q g xs ys r m ev differs results =
    (transition-Accepts_iff digest r m).1 λ (_, none_failed, _). differs (
      passed-of-Reports q.guard q.context (evaluate q) g (evaluate-Reports q) ev
        (failed_guards-append xs ys g (rw results at none_failed)))
