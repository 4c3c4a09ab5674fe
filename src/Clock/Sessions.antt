-- ===== src/Clock/Sessions.antt =====
-- `_validate_sessions` of backend/backtesting/clock.py: when it accepts the sessions and what it
-- returns.
use mathlib.Core.List.{Perm}
use option_research_platform.Base.{false, List, [], ◌∷◌, ◌≡◌, refl, Bool-cases, inl, inr, All}
use option_research_platform.Base.Sort.{
  sorted, IsSorted, sorted-IsSorted, sorted-perm, All-sorted, All-of-sorted,
}
use option_research_platform.Base.Time.{ensure_aware, time_le}
use option_research_platform.Base.Result.{ok, err, >>=-eq-ok, err≢ok, Result-cases}
use option_research_platform.Clock.Events.{TradingSession, EventClockConfig}
use option_research_platform.Clock.Build.{
  EventClockError, check_sessions, by_trade_date, validate_sessions,
}

-- The session opens before it closes.
abbrev pub OpensBeforeClose : TradingSession → Type 0
OpensBeforeClose s =
    time_le (ensure_aware s.close_timestamp) (ensure_aware s.open_timestamp) ≡ false

check_sessions_accepts :
    (ss : List TradingSession) → All OpensBeforeClose ss → check_sessions ss ≡ ok tt
unfolding check_sessions
check_sessions_accepts [] h = refl
check_sessions_accepts (s ∷ ss) h = rw h.0 (check_sessions_accepts ss h.1)

check_sessions_sound :
    (ss : List TradingSession) → check_sessions ss ≡ ok tt → All OpensBeforeClose ss
unfolding check_sessions
check_sessions_sound [] h = tt
check_sessions_sound (s ∷ ss) h =
    elim (Bool-cases (time_le (ensure_aware s.close_timestamp) (ensure_aware s.open_timestamp))) [
      | inl bad ↦ absurd (err≢ok (rw bad at h))
      | inr good ↦ (good, check_sessions_sound ss (rw good at h))
    ]

validate_sessions_accepts :
    (config : EventClockConfig) (s : TradingSession) (ss : List TradingSession)
    → All OpensBeforeClose (s ∷ ss)
    → validate_sessions config (s ∷ ss) ≡ ok (sorted by_trade_date (s ∷ ss))
unfolding validate_sessions
validate_sessions_accepts config s ss h = rw (
    check_sessions_accepts (sorted by_trade_date (s ∷ ss))
      (All-sorted by_trade_date OpensBeforeClose (s ∷ ss) h))

validate_sessions_sound :
    (config : EventClockConfig) (s : TradingSession) (ss valid : List TradingSession)
    → validate_sessions config (s ∷ ss) ≡ ok valid
    → All OpensBeforeClose (s ∷ ss)
unfolding validate_sessions
validate_sessions_sound config s ss valid h =
    let ordered : List TradingSession = sorted by_trade_date (s ∷ ss) in
    let (u, checked, _) = >>=-eq-ok (check_sessions ordered) (λ _. ok ordered) h in
    All-of-sorted by_trade_date OpensBeforeClose (s ∷ ss) (check_sessions_sound ordered checked)

-- With at least one session, `_validate_sessions` returns the sessions ordered by trade date,
-- each as often as it was given, when every session opens before it closes, and raises otherwise.
pub validate_sessions_lem :
    (config : EventClockConfig) (s : TradingSession) (ss : List TradingSession)
    → (All OpensBeforeClose (s ∷ ss)
        → (valid : List TradingSession) × (validate_sessions config (s ∷ ss) ≡ ok valid)
          × IsSorted by_trade_date valid
          × Perm valid (s ∷ ss))
      × (¬ All OpensBeforeClose (s ∷ ss)
          → (x : EventClockError) × (validate_sessions config (s ∷ ss) ≡ err x))
validate_sessions_lem config s ss = (
  λ good. (
    sorted by_trade_date (s ∷ ss),
    validate_sessions_accepts config s ss good,
    sorted-IsSorted by_trade_date (s ∷ ss),
    sorted-perm by_trade_date (s ∷ ss),
  ),
  λ bad. elim (Result-cases (validate_sessions config (s ∷ ss))) [
    | inl (valid, h) ↦ absurd (bad (validate_sessions_sound config s ss valid h))
    | inr (x, h) ↦ (x, h)
  ],
)
