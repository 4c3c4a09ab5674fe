-- ===== src/Lifecycle/Paths.antt =====
-- Which states of the lifecycle can follow which, by the table of allowed transitions.
use option_research_platform.Base.{
  ℕ, suc, ◌≤◌, ◌<◌, String, List, [], ◌∷◌, ◌≡◌, true, refl, ap, ◌⊎◌, inl, inr, arith,
}
use option_research_platform.Lifecycle.States.{
  LifecycleState, configured, waiting_for_entry, entry_signaled, entry_pending, partially_open,
  opened, management_pending, exit_signaled, exit_pending, partially_closed, roll_signaled,
  roll_pending, expired, pending_exercise_or_assignment, closed, cancelled, failed, state_index,
  allowed_transitions, Allowed, state_in,
}
use option_research_platform.Lifecycle.Machine.{
  ChecksumPayload, StateTransitionRecord, StrategyStateMachine, TransitionRequest, transition,
  send_all, new_machine,
}
use option_research_platform.Lifecycle.History.{
  IsChain, Accepts, end_state, transition-Accepts_iff, history-IsConsistent,
}

-- The three states that no transition leaves.
abbrev pub IsTerminal : LifecycleState → Type 0
IsTerminal s = allowed_transitions s ≡ []

terminal_not_Allowed : (s t : LifecycleState) → IsTerminal s → ¬ Allowed s t
terminal_not_Allowed s t h a = ground arith

module _ (digest : ChecksumPayload → String) where
  terminal_rejects :
      (r : TransitionRequest) (m : StrategyStateMachine)
      → IsTerminal m.state
      → (transition digest r m).1 ≡ m
  terminal_rejects r m h =
      let refused : ¬ Accepts digest r m =
        λ (step, _, _). terminal_not_Allowed m.state r.next_state h step in
      ap (λ p. p.1) ((transition-Accepts_iff digest r m).1 refused).1

  end_states-IsTerminal :
      (s : LifecycleState) → state_in s (closed ∷ cancelled ∷ failed ∷ []) ≡ true → IsTerminal s
  end_states-IsTerminal s h = ground arith

  -- A machine in CLOSED, CANCELLED or FAILED refuses every request and never changes again.
  pub terminal_is_final :
      (rs : List TransitionRequest) (m : StrategyStateMachine)
      → state_in m.state (closed ∷ cancelled ∷ failed ∷ []) ≡ true
      → send_all digest rs m ≡ m
  terminal_is_final [] m h = refl
  terminal_is_final (r ∷ rs) m h =
      rw (terminal_rejects r m (end_states-IsTerminal m.state h)) (terminal_is_final rs m h)

-- Some record enters `s`.
abbrev pub Entered : LifecycleState → List StateTransitionRecord → Type 0
Entered s [] = ⊥
Entered s (r ∷ rs) = (state_index r.next_state ≡ state_index s) ⊎ Entered s rs

-- A step from before OPEN stays before OPEN, enters OPEN, or ends in CANCELLED or FAILED.
step_before_open :
    (s t : LifecycleState)
    → state_index s ≤ 4
    → Allowed s t
    → (state_index t ≤ 4) ⊎ ((state_index t ≡ 5) ⊎ (15 ≤ state_index t))
step_before_open configured t h a = ground arith
step_before_open _ t h a = ground arith

abort_not_Allowed : (s t : LifecycleState) → 15 ≤ state_index s → ¬ Allowed s t
abort_not_Allowed configured t h a = absurd (omega arith)
abort_not_Allowed cancelled t h a = cc
abort_not_Allowed failed t h a = cc
abort_not_Allowed _ t h a = absurd (omega arith)

after_abort :
    (s : LifecycleState) (n : ℕ) (rs : List StateTransitionRecord)
    → 15 ≤ state_index s
    → IsChain s n rs
    → end_state s rs ≡ s
after_abort s n [] h c = refl
after_abort s n (r ∷ rs) h c = absurd (abort_not_Allowed s r.next_state h c.2)

open_before_end :
    (s : LifecycleState) (n : ℕ) (rs : List StateTransitionRecord)
    → state_index s ≤ 4
    → IsChain s n rs
    → 5 ≤ state_index (end_state s rs)
    → state_index (end_state s rs) < 15
    → Entered opened rs
open_before_end s n [] h c low high = absurd (omega arith)
open_before_end s n (r ∷ rs) h c low high = elim (step_before_open s r.next_state h c.2) [
  | inl before ↦ inr (open_before_end r.next_state (suc n) rs before c.4 low high)
  | inr (inl here) ↦ inl here
  | inr (inr abort) ↦
      absurd (omega (arith, ap state_index (after_abort r.next_state (suc n) rs abort c.4)))
]

-- A machine that is past its entry, and neither cancelled nor failed, has been OPEN: whatever
-- requests a new machine was sent, if it is then in one of the states from OPEN to CLOSED, some
-- record of its history entered OPEN.
pub open_before_closed :
    (digest : ChecksumPayload → String) (rs : List TransitionRequest)
    (strategy position commit : String)
    → let m = send_all digest rs (new_machine strategy position commit) in
      5 ≤ state_index m.state → state_index m.state < 15 → Entered opened m.transitions
open_before_closed digest rs strategy position commit low high =
    let c = history-IsConsistent digest rs strategy position commit in
    open_before_end configured 0 _ (omega arith) c.chain (rw c.ends low) (rw c.ends high)

-- Steps of the table, one after the other.
pub data Reaches : LifecycleState → LifecycleState → Type 0 where
  here : {s : LifecycleState} → Reaches s s
  step : {s t u : LifecycleState} → Allowed s t → Reaches t u → Reaches s u

closed_from_open : Reaches opened closed
closed_from_open = step {t = exit_signaled} refl (step {t = exit_pending} refl (step refl here))

-- No state is a dead end: from every state but CANCELLED and FAILED some path of allowed steps
-- leads to CLOSED.
pub closed_is_reachable : (s : LifecycleState) → state_index s < 15 → Reaches s closed
closed_is_reachable configured h = step {t = waiting_for_entry} refl (
    step {t = entry_signaled} refl
      (step {t = entry_pending} refl (step {t = opened} refl closed_from_open)))
closed_is_reachable waiting_for_entry h =
    step {t = entry_signaled} refl
      (step {t = entry_pending} refl (step {t = opened} refl closed_from_open))
closed_is_reachable entry_signaled h =
    step {t = entry_pending} refl (step {t = opened} refl closed_from_open)
closed_is_reachable entry_pending h = step {t = opened} refl closed_from_open
closed_is_reachable partially_open h = step {t = opened} refl closed_from_open
closed_is_reachable opened h = closed_from_open
closed_is_reachable management_pending h = step {t = opened} refl closed_from_open
closed_is_reachable exit_signaled h = step {t = exit_pending} refl (step refl here)
closed_is_reachable exit_pending h = step refl here
closed_is_reachable partially_closed h = step refl here
closed_is_reachable roll_signaled h =
    step {t = roll_pending} refl (step {t = opened} refl closed_from_open)
closed_is_reachable roll_pending h = step {t = opened} refl closed_from_open
closed_is_reachable expired h = step refl here
closed_is_reachable pending_exercise_or_assignment h = step refl here
closed_is_reachable closed h = here
closed_is_reachable cancelled h = absurd (omega arith)
closed_is_reachable failed h = absurd (omega arith)
