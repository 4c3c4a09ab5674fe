-- ===== src/Lifecycle/Tests.antt =====
-- Runs of the state machine and the guard library, and each theorem at a concrete input.
use option_research_platform.Base.{true, false, String, none, some, List, [], ◌∷◌, ◌≡◌, refl, arith}
use option_research_platform.Base.Int.{pos, ◌-ℤ◌, ◌*ℤ◌}
use option_research_platform.Base.Time.{Datetime, ensure_aware}
use option_research_platform.Base.Value.{null, float, int}
use option_research_platform.Base.Result.{ok, err}
use option_research_platform.Lifecycle.States.{
  LifecycleState, configured, waiting_for_entry, entry_signaled, entry_pending, opened,
  exit_signaled, exit_pending, closed, roll_pending, entry_policy, capital_available, market_open,
}
use option_research_platform.Lifecycle.Machine.{
  ChecksumPayload, GuardResult, TransitionRequest, StrategyStateMachine, TransitionError,
  invalid_transition, transition, transition_record, send_all, new_machine,
}
use option_research_platform.Lifecycle.Guards.{GuardEvaluationRequest, evaluate}
use option_research_platform.Lifecycle.Guards.Laws.{Reports, evaluate-Reports}
use option_research_platform.Lifecycle.History.{
  Accepts, IsConsistent, accepted, transition-Accepts_iff, history-IsConsistent,
}
use option_research_platform.Lifecycle.Paths.{
  Entered, Reaches, terminal_is_final, open_before_closed, closed_is_reachable,
}

-- A stand-in for the hash.
abbrev digest : ChecksumPayload → String
digest p = p.snapshot

abbrev passed_guard : GuardResult
passed_guard = record { guard = market_open; passed = true; reason_code = "ok"; details = [] }

abbrev request : LifecycleState → Datetime → List GuardResult → TransitionRequest
request next t guards = record {
  next_state = next;
  timestamp = t;
  trigger = entry_policy;
  guard_results = guards;
  action_plan = [];
  data_snapshot_reference = "snapshot-1";
  warnings = [];
  failures = [];
}

-- A naive reading, and one in a zone two hours ahead of UTC that names an earlier instant.
abbrev noon : Datetime
noon = record { wall = pos 43200000000; utcoffset = none }

abbrev noon_in_zone : Datetime
noon_in_zone = record { wall = pos 43200000000; utcoffset = some (pos 7200000000) }

abbrev machine : StrategyStateMachine
machine = new_machine "iron-condor" "position-1" "abc123"

abbrev full_life : List TransitionRequest
full_life =
    request waiting_for_entry noon (passed_guard ∷ [])
    ∷ request closed noon []
    ∷ request entry_signaled noon []
    ∷ request entry_pending noon []
    ∷ request opened noon []
    ∷ request exit_signaled noon []
    ∷ request exit_pending noon_in_zone []
    ∷ request exit_pending noon []
    ∷ request closed noon []
    ∷ []

run-full_life :
    ((send_all digest full_life machine).state ≡ closed)
    × ((send_all digest full_life machine).sequence_number ≡ 7)
unfolding transition ensure_aware ◌-ℤ◌
run-full_life = (refl, refl)

refuse-skip :
    transition digest (request opened noon []) machine
    ≡ (err (invalid_transition configured opened), machine)
unfolding transition
refuse-skip = refl

-- Required capital of 100 against 99.5 available.
abbrev short_of_capital : GuardEvaluationRequest
short_of_capital = record {
  guard = capital_available;
  context =
      ("available_capital", float (pos 9950000000)) ∷ ("required_capital", int (pos 100)) ∷ [];
}

abbrev capital_refused : GuardResult
capital_refused = record {
  guard = capital_available;
  passed = false;
  reason_code = "insufficient_capital";
  details = ("observed", float (pos 9950000000)) ∷ ("threshold", float (pos 10000000000)) ∷ [];
}

evaluate-short_of_capital : evaluate short_of_capital ≡ some capital_refused
unfolding evaluate ◌*ℤ◌
evaluate-short_of_capital = refl

-- A guard on a flag fails where its key is missing.
evaluate-empty :
    (evaluate (record { guard = market_open; context = [] }))
    ≡ some (record {
      guard = market_open;
      passed = false;
      reason_code = "market_closed";
      details = ("observed", null) ∷ [];
    })
unfolding evaluate
evaluate-empty = refl

transition-Accepts_iff_example :
    (Accepts digest (request waiting_for_entry noon []) machine
      → transition digest (request waiting_for_entry noon []) machine ≡ (
        ok (
            transition_record digest
              (request waiting_for_entry noon [])
              machine
              (ensure_aware noon)
              1),
        accepted digest (request waiting_for_entry noon []) machine,
      ))
    × (¬ Accepts digest (request waiting_for_entry noon []) machine
        → (e : TransitionError) × (transition digest (request waiting_for_entry noon []) machine
            ≡ (err e, machine)))
transition-Accepts_iff_example =
    transition-Accepts_iff digest (request waiting_for_entry noon []) machine

history-IsConsistent_example : IsConsistent (send_all digest full_life machine)
history-IsConsistent_example =
    history-IsConsistent digest full_life "iron-condor" "position-1" "abc123"

abbrev closed_machine : StrategyStateMachine
closed_machine = record machine { state = closed }

terminal_is_final_example : send_all digest full_life closed_machine ≡ closed_machine
terminal_is_final_example = terminal_is_final digest full_life closed_machine refl

open_before_closed_example : Entered opened (send_all digest full_life machine).transitions
unfolding transition ensure_aware ◌-ℤ◌
open_before_closed_example =
    open_before_closed digest full_life "iron-condor" "position-1" "abc123" (omega arith)
      (omega arith)

closed_is_reachable_example : Reaches roll_pending closed
closed_is_reachable_example = closed_is_reachable roll_pending (omega arith)

evaluate-Reports_example :
    Reports capital_available short_of_capital.context (evaluate short_of_capital)
evaluate-Reports_example = evaluate-Reports short_of_capital
