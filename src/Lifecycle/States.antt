-- ===== src/Lifecycle/States.antt =====
-- The enumerations of backend/backtesting/state_machine.py and its table of allowed transitions.
use option_research_platform.Base.{ℕ, Bool, true, false, String, List, [], ◌∷◌, ◌==◌, ◌||◌, ◌≡◌}

pub data LifecycleState : Type 0 where
  configured waiting_for_entry entry_signaled entry_pending partially_open opened : LifecycleState
  management_pending exit_signaled exit_pending partially_closed roll_signaled : LifecycleState
  roll_pending expired pending_exercise_or_assignment closed cancelled failed : LifecycleState

pub data TransitionTrigger : Type 0 where
  entry_policy entry_plan_created entry_intents_submitted fill_reconciliation : TransitionTrigger
  management_policy exit_policy roll_policy expiration expiration_residual : TransitionTrigger
  risk_breach cancellation failure finalization : TransitionTrigger

pub data GuardName : Type 0 where
  data_available market_open quote_freshness liquidity_threshold bid_ask_width : GuardName
  capital_available strategy_validity leg_compatibility expiration_ordering : GuardName
  exercise_style_compatibility minimum_quality_score no_conflicting_lifecycle_action : GuardName
  no_duplicate_order_intent no_look_ahead_compliance maximum_open_positions : GuardName
  event_risk_restrictions earnings_window_restrictions corporate_action_restrictions : GuardName

pub data ActionName : Type 0 where
  create_entry_plan submit_research_order_intents reconcile_fills activate_position : ActionName
  mark_position trigger_management trigger_exit trigger_roll process_expiration : ActionName
  cancel_pending_action fail_position close_position finalize_strategy_instance : ActionName

-- `state.value`
abbrev pub state_value : LifecycleState → String
state_value configured = "configured"
state_value waiting_for_entry = "waiting_for_entry"
state_value entry_signaled = "entry_signaled"
state_value entry_pending = "entry_pending"
state_value partially_open = "partially_open"
state_value opened = "open"
state_value management_pending = "management_pending"
state_value exit_signaled = "exit_signaled"
state_value exit_pending = "exit_pending"
state_value partially_closed = "partially_closed"
state_value roll_signaled = "roll_signaled"
state_value roll_pending = "roll_pending"
state_value expired = "expired"
state_value pending_exercise_or_assignment = "pending_exercise_or_assignment"
state_value closed = "closed"
state_value cancelled = "cancelled"
state_value failed = "failed"

-- The place of a state in the enumeration, by which two members are compared.
abbrev pub state_index : LifecycleState → ℕ
state_index configured = 0
state_index waiting_for_entry = 1
state_index entry_signaled = 2
state_index entry_pending = 3
state_index partially_open = 4
state_index opened = 5
state_index management_pending = 6
state_index exit_signaled = 7
state_index exit_pending = 8
state_index partially_closed = 9
state_index roll_signaled = 10
state_index roll_pending = 11
state_index expired = 12
state_index pending_exercise_or_assignment = 13
state_index closed = 14
state_index cancelled = 15
state_index failed = 16

abbrev pub state_eq : LifecycleState → LifecycleState → Bool
state_eq a b = state_index a == state_index b

-- `state in states`
abbrev pub state_in : LifecycleState → List LifecycleState → Bool
state_in s [] = false
state_in s (t ∷ ts) = state_eq s t || state_in s ts

-- `_ALLOWED_TRANSITIONS[state]`
abbrev pub allowed_transitions : LifecycleState → List LifecycleState
allowed_transitions configured = waiting_for_entry ∷ cancelled ∷ failed ∷ []
allowed_transitions waiting_for_entry = entry_signaled ∷ cancelled ∷ failed ∷ []
allowed_transitions entry_signaled = entry_pending ∷ cancelled ∷ failed ∷ []
allowed_transitions entry_pending = partially_open ∷ opened ∷ cancelled ∷ failed ∷ []
allowed_transitions partially_open = opened ∷ cancelled ∷ failed ∷ []
allowed_transitions opened =
    management_pending ∷ exit_signaled ∷ roll_signaled ∷ expired ∷ failed ∷ []
allowed_transitions management_pending = opened ∷ exit_signaled ∷ roll_signaled ∷ failed ∷ []
allowed_transitions exit_signaled = exit_pending ∷ failed ∷ []
allowed_transitions exit_pending = partially_closed ∷ closed ∷ failed ∷ []
allowed_transitions partially_closed = closed ∷ failed ∷ []
allowed_transitions roll_signaled = roll_pending ∷ failed ∷ []
allowed_transitions roll_pending = opened ∷ partially_open ∷ failed ∷ []
allowed_transitions expired = pending_exercise_or_assignment ∷ closed ∷ []
allowed_transitions pending_exercise_or_assignment = closed ∷ failed ∷ []
allowed_transitions closed = []
allowed_transitions cancelled = []
allowed_transitions failed = []

-- The table as a relation: one step of the lifecycle.
abbrev pub Allowed : LifecycleState → LifecycleState → Type 0
Allowed s t = state_in t (allowed_transitions s) ≡ true
