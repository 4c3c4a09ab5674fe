-- ===== src/Lifecycle/Machine.antt =====
-- `StrategyStateMachine` of backend/backtesting/state_machine.py: its records, the three checks
-- and `transition`. sha256 over the printed payload is the parameter `digest`, which is given the
-- fields that the program prints.
use option_research_platform.Base.{
  ℕ, ◌+◌, Bool, not, String, none, some, List, [], ◌∷◌, ◌++◌, map, select, last?,
}
use option_research_platform.Base.Time.{Datetime, ensure_aware, time_lt}
use option_research_platform.Base.Value.{Value}
use option_research_platform.Base.Result.{ok, err, Action, raise_if, and_then}
use option_research_platform.Lifecycle.States.{
  LifecycleState, configured, TransitionTrigger, GuardName, ActionName, state_in,
  allowed_transitions,
}

pub record GuardResult : Type 0 where
  pub guard : GuardName
  pub passed : Bool
  pub reason_code : String
  pub details : List (String × Value)

pub record ActionPlan : Type 0 where
  pub action : ActionName
  pub payload : List (String × Value)

-- What `_transition_checksum` prints.
pub record ChecksumPayload : Type 0 where
  pub sequence_number : ℕ
  pub prior_state : LifecycleState
  pub next_state : LifecycleState
  pub timestamp : Datetime
  pub trigger : TransitionTrigger
  pub snapshot : String

pub record StateTransitionRecord : Type 0 where
  pub sequence_number : ℕ
  pub prior_state : LifecycleState
  pub next_state : LifecycleState
  pub timestamp : Datetime
  pub trigger : TransitionTrigger
  pub guard_results : List GuardResult
  pub action_plan : List ActionPlan
  pub data_snapshot_reference : String
  pub strategy_identifier : String
  pub position_identifier : String
  pub software_git_commit : String
  pub warnings : List String
  pub failures : List String
  pub checksum_metadata : List (String × String)

-- `InvalidTransitionError`, with what each of its three messages prints.
pub data TransitionError : Type 0 where
  invalid_transition : LifecycleState → LifecycleState → TransitionError
  guards_failed : List (GuardName × String) → TransitionError
  non_deterministic : Datetime → Datetime → TransitionError

pub record StrategyStateMachine : Type 0 where
  pub strategy_identifier : String
  pub position_identifier : String
  pub software_git_commit : String
  pub state : LifecycleState
  pub sequence_number : ℕ
  pub transitions : List StateTransitionRecord

-- A machine as its constructor leaves it.
abbrev pub new_machine : String → String → String → StrategyStateMachine
new_machine strategy position commit = record {
  strategy_identifier = strategy;
  position_identifier = position;
  software_git_commit = commit;
  state = configured;
  sequence_number = 0;
  transitions = [];
}

-- The keyword arguments of `transition`.
pub record TransitionRequest : Type 0 where
  pub next_state : LifecycleState
  pub timestamp : Datetime
  pub trigger : TransitionTrigger
  pub guard_results : List GuardResult
  pub action_plan : List ActionPlan
  pub data_snapshot_reference : String
  pub warnings : List String
  pub failures : List String

abbrev pub MachineAction : Type 0 → Type 0
MachineAction A = Action TransitionError StrategyStateMachine A

unfoldable pub assert_can_transition : LifecycleState → MachineAction (Unit {0})
assert_can_transition next m =
    raise_if (not (state_in next (allowed_transitions m.state))) (invalid_transition m.state next) m

-- `[item for item in guard_results if not item.passed]`
abbrev pub failed_guards : List GuardResult → List GuardResult
failed_guards = select (λ g. not g.passed)

abbrev pub reasons : List GuardResult → List (GuardName × String)
reasons = map (λ g. (g.guard, g.reason_code))

unfoldable pub assert_guards : List GuardResult → MachineAction (Unit {0})
assert_guards results m = elim (failed_guards results) [
  | [] ↦ (ok tt, m)
  | g ∷ gs ↦ (err (guards_failed (reasons (g ∷ gs))), m)
]

unfoldable pub assert_ordering : Datetime → MachineAction (Unit {0})
assert_ordering timestamp m = elim (last? m.transitions) [
  | none ↦ (ok tt, m)
  | some last ↦
      raise_if (time_lt timestamp last.timestamp) (non_deterministic timestamp last.timestamp) m
]

module _ (digest : ChecksumPayload → String) where
  -- The record that `transition` builds once the checks have passed; `number` is the new count.
  abbrev pub transition_record :
      TransitionRequest → StrategyStateMachine → Datetime → ℕ → StateTransitionRecord
  transition_record r m timestamp number = record {
    sequence_number = number;
    prior_state = m.state;
    next_state = r.next_state;
    timestamp = timestamp;
    trigger = r.trigger;
    guard_results = r.guard_results;
    action_plan = r.action_plan;
    data_snapshot_reference = r.data_snapshot_reference;
    strategy_identifier = m.strategy_identifier;
    position_identifier = m.position_identifier;
    software_git_commit = m.software_git_commit;
    warnings = r.warnings;
    failures = r.failures;
    checksum_metadata =
        (
          "row_checksum",
          digest (record {
            sequence_number = number;
            prior_state = m.state;
            next_state = r.next_state;
            timestamp = timestamp;
            trigger = r.trigger;
            snapshot = r.data_snapshot_reference;
          }),
        )
        ∷ [];
  }

  -- The writes of `transition` behind its checks.
  unfoldable pub commit : TransitionRequest → Datetime → MachineAction StateTransitionRecord
  commit r timestamp m =
      let number = m.sequence_number + 1 in
      let row = transition_record r m timestamp number in
      (
        ok row,
        record m {
          sequence_number = number;
          state = r.next_state;
          transitions = m.transitions ++ row ∷ [];
        },
      )

  unfoldable pub transition : TransitionRequest → MachineAction StateTransitionRecord
  unfolding assert_can_transition assert_guards assert_ordering commit
  transition r =
      let timestamp = ensure_aware r.timestamp in
      and_then (assert_can_transition r.next_state) λ _.
        and_then (assert_guards r.guard_results)
          λ _. and_then (assert_ordering timestamp) λ _. commit r timestamp

  -- A client that sends requests one after the other and goes on after an error.
  abbrev pub send_all : List TransitionRequest → StrategyStateMachine → StrategyStateMachine
  send_all [] m = m
  send_all (r ∷ rs) m = send_all rs (transition r m).1
