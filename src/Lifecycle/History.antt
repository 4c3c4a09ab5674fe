-- ===== src/Lifecycle/History.antt =====
-- `transition` of backend/backtesting/state_machine.py: when it accepts, what it writes, and the
-- shape of the history that it builds.
use option_research_platform.Base.{
  ℕ, suc, ◌+◌, false, String, Option, none, some, List, [], ◌∷◌, ◌++◌, ◌≡◌, refl, sym, arith,
  length, length-append, last?, Option-cases, inl, inr,
}
use option_research_platform.Base.Time.{Datetime, ensure_aware, time_lt}
use option_research_platform.Base.Result.{ok, err, Result-cases, pair_of}
use option_research_platform.Lifecycle.States.{LifecycleState, configured, Allowed}
use option_research_platform.Lifecycle.Machine.{
  send_all, new_machine, StateTransitionRecord, StrategyStateMachine, TransitionRequest,
  TransitionError, ChecksumPayload, failed_guards, transition, transition_record,
}

-- Records that start in state `s` behind number `n`: each leaves the state that the one before it
-- entered, by a step of the table, with the next number and with every guard passed.
abbrev pub IsChain : LifecycleState → ℕ → List StateTransitionRecord → Type 0
IsChain s n [] = Unit
IsChain s n (r ∷ rs) =
    (r.prior_state ≡ s)
    × (r.sequence_number ≡ suc n)
    × Allowed s r.next_state
    × (failed_guards r.guard_results ≡ [])
    × IsChain r.next_state (suc n) rs

abbrev pub end_state : LifecycleState → List StateTransitionRecord → LifecycleState
end_state s [] = s
end_state s (r ∷ rs) = end_state r.next_state rs

-- No record is stamped earlier than the one before it.
abbrev pub IsInOrder : List StateTransitionRecord → Type 0
IsInOrder [] = Unit
IsInOrder (r ∷ []) = Unit
IsInOrder (r ∷ q ∷ rs) = (time_lt q.timestamp r.timestamp ≡ false) × IsInOrder (q ∷ rs)

-- No record of the history is later than `t`: the test of `_assert_ordering`.
abbrev pub NotBefore : Datetime → Option StateTransitionRecord → Type 0
NotBefore t none = Unit
NotBefore t (some last) = time_lt t last.timestamp ≡ false

pub record IsConsistent (m : StrategyStateMachine) : Type 0 where
  pub chain : IsChain configured 0 m.transitions
  pub ends : end_state configured m.transitions ≡ m.state
  pub counted : length m.transitions ≡ m.sequence_number
  pub in_order : IsInOrder m.transitions

IsChain-append :
    (s : LifecycleState) (n : ℕ) (rs : List StateTransitionRecord) (r : StateTransitionRecord)
    → IsChain s n rs
    → r.prior_state ≡ end_state s rs
    → r.sequence_number ≡ suc (n + length rs)
    → Allowed (end_state s rs) r.next_state
    → failed_guards r.guard_results ≡ []
    → IsChain s n (rs ++ r ∷ [])
IsChain-append s n [] r h p q a g = (p, omega arith, a, g, tt)
IsChain-append s n (x ∷ rs) r h p q a g =
    (h.0, h.1, h.2, h.3, IsChain-append x.next_state (suc n) rs r h.4 p (omega arith) a g)

end_state-append :
    (s : LifecycleState) (rs : List StateTransitionRecord) (r : StateTransitionRecord)
    → end_state s (rs ++ r ∷ []) ≡ r.next_state
end_state-append s [] r = refl
end_state-append s (x ∷ rs) r = end_state-append x.next_state rs r

IsInOrder-append :
    (rs : List StateTransitionRecord) (r : StateTransitionRecord)
    → IsInOrder rs
    → NotBefore r.timestamp (last? rs)
    → IsInOrder (rs ++ r ∷ [])
IsInOrder-append [] r h k = tt
IsInOrder-append (x ∷ []) r h k = (k, tt)
IsInOrder-append (x ∷ y ∷ rs) r h k = (h.0, IsInOrder-append (y ∷ rs) r h.1 k)

module _ (digest : ChecksumPayload → String) where
  -- What an accepted request satisfies.
  abbrev pub Accepts : TransitionRequest → StrategyStateMachine → Type 0
  Accepts r m =
      Allowed m.state r.next_state
      × (failed_guards r.guard_results ≡ [])
      × NotBefore (ensure_aware r.timestamp) (last? m.transitions)

  -- The machine after an accepted request: one more record, and nothing else.
  abbrev pub accepted : TransitionRequest → StrategyStateMachine → StrategyStateMachine
  accepted r m = record m {
    state = r.next_state;
    sequence_number = m.sequence_number + 1;
    transitions =
        m.transitions
        ++ transition_record digest r m (ensure_aware r.timestamp) (m.sequence_number + 1) ∷ [];
  }

  pub transition-of-Accepts :
      (r : TransitionRequest) (m : StrategyStateMachine)
      → Accepts r m
      → transition digest r m ≡ (
        ok (transition_record digest r m (ensure_aware r.timestamp) (m.sequence_number + 1)),
        accepted r m,
      )
  unfolding transition
  transition-of-Accepts r m h = elim (Option-cases (last? m.transitions)) [
    | inl e ↦ ground arith
    | inr (l, e) ↦ ground arith
  ]

  pub Accepts-of-ok :
      (r : TransitionRequest) (m : StrategyStateMachine) (row : StateTransitionRecord)
      → (transition digest r m).0 ≡ ok row
      → Accepts r m
  unfolding transition
  Accepts-of-ok r m row h = ground arith

  pub transition_error_keeps :
      (r : TransitionRequest) (m : StrategyStateMachine) (e : TransitionError)
      → (transition digest r m).0 ≡ err e
      → (transition digest r m).1 ≡ m
  unfolding transition
  transition_error_keeps r m e h = ground arith

  accepted-IsConsistent :
      (r : TransitionRequest) (m : StrategyStateMachine)
      → IsConsistent m
      → Accepts r m
      → IsConsistent (accepted r m)
  accepted-IsConsistent r m c (a, g, o) =
      let row : StateTransitionRecord =
        transition_record digest r m (ensure_aware r.timestamp) (m.sequence_number + 1) in
      record {
        chain =
            IsChain-append configured 0 m.transitions row c.chain (sym c.ends)
              (omega (arith, c.counted)) (rw c.ends a) g;
        ends = end_state-append configured m.transitions row;
        counted = omega (arith, length-append m.transitions (row ∷ []), c.counted);
        in_order = IsInOrder-append m.transitions row c.in_order o;
      }

  pub transition-IsConsistent :
      (r : TransitionRequest) (m : StrategyStateMachine)
      → IsConsistent m
      → IsConsistent (transition digest r m).1
  transition-IsConsistent r m c = elim (Result-cases (transition digest r m).0) [
    | inl (row, e) ↦
        let a : Accepts r m = Accepts-of-ok r m row e in
        rw (transition-of-Accepts r m a) (accepted-IsConsistent r m c a)
    | inr (x, e) ↦ rw (transition_error_keeps r m x e) c
  ]

  -- `transition` accepts a request exactly when the table has the step, no guard failed, and the
  -- stamp is not earlier than that of the last record. Then it returns the record with the next
  -- number, appends it, enters the state, and writes nothing else; otherwise it raises and leaves
  -- the machine as it was.
  pub transition-Accepts_iff :
      (r : TransitionRequest) (m : StrategyStateMachine)
      → (Accepts r m
          → transition digest r m ≡ (
            ok (transition_record digest r m (ensure_aware r.timestamp) (m.sequence_number + 1)),
            accepted r m,
          ))
        × (¬ Accepts r m → (e : TransitionError) × (transition digest r m ≡ (err e, m)))
  transition-Accepts_iff r m = (
    transition-of-Accepts r m,
    λ refused. elim (Result-cases (transition digest r m).0) [
      | inl (row, e) ↦ absurd (refused (Accepts-of-ok r m row e))
      | inr (x, e) ↦ (x, pair_of e (transition_error_keeps r m x e))
    ],
  )

  send_all-IsConsistent :
      (rs : List TransitionRequest) (m : StrategyStateMachine)
      → IsConsistent m
      → IsConsistent (send_all digest rs m)
  send_all-IsConsistent [] m c = c
  send_all-IsConsistent (r ∷ rs) m c =
      send_all-IsConsistent rs (transition digest r m).1 (transition-IsConsistent r m c)

  -- Whatever requests a new machine is sent, refused ones included, its records are numbered
  -- from 1 without a gap, each leaves the state that the one before it entered by a step of the
  -- table with every guard passed, the last one entered the machine's state, the counter is the
  -- number of records, and the stamps never go back.
  pub history-IsConsistent :
      (rs : List TransitionRequest) (strategy position commit : String)
      → IsConsistent (send_all digest rs (new_machine strategy position commit))
  history-IsConsistent rs strategy position commit =
      send_all-IsConsistent rs (new_machine strategy position commit)
        (record { chain = tt; ends = refl; counted = refl; in_order = tt })
