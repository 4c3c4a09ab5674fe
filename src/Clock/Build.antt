-- ===== src/Clock/Build.antt =====
-- `HistoricalEventClock` of backend/backtesting/clock.py. What Python's library prints is a
-- parameter: `isoformat` of a date, and `event_id`, the sha256 of an event's printed fields.
use option_research_platform.Base.{
  ℕ, suc, Bool, true, false, String, List, [], ◌∷◌, ◌++◌, map, if◌then◌else◌, ◌&&◌,
}
use option_research_platform.Base.Int.{ℤ, pos, eqb_ℤ}
use option_research_platform.Base.Order.{Preorder, by_key, lexical, int_order, nat_order}
use option_research_platform.Base.Sort.{sorted}
use option_research_platform.Base.Text.{text_order}
use option_research_platform.Base.Time.{Datetime, ensure_aware, time_le, time_eq, time_order}
use option_research_platform.Base.Result.{Result, ok, err, ◌>>=◌}
use option_research_platform.Clock.Events.{
  EventType, session_open, session_close, event_value, event_type_eq, session_open_priority,
  session_close_priority, DuplicateEventPolicy, keep_first, keep_last, keep_all,
  MissingSessionPolicy, TradingSession, ClockEvent, DeterministicEvent, EventClockConfig, skip,
}

-- `EventClockError`, with what its three messages name.
pub data EventClockError : Type 0 where
  no_sessions : EventClockError
  session_not_ordered : ℕ → EventClockError
  duplicate_event : Datetime → EventType → EventClockError

-- `config.event_priorities.get(event_type, fallback)`
abbrev pub priority_of : List (EventType × ℤ) → EventType → ℤ → ℤ
priority_of [] t fallback = fallback
priority_of ((u, p) ∷ rest) t fallback =
    if event_type_eq u t then p else priority_of rest t fallback

unfoldable pub check_sessions : List TradingSession → Result EventClockError (Unit {0})
check_sessions [] = ok tt
check_sessions (s ∷ rest) =
    if time_le (ensure_aware s.close_timestamp) (ensure_aware s.open_timestamp)
    then err (session_not_ordered s.trade_date)
    else check_sessions rest

abbrev pub by_trade_date : Preorder TradingSession
by_trade_date = by_key (λ s. s.trade_date) nat_order

abbrev pub no_session_result : MissingSessionPolicy → Result EventClockError (List TradingSession)
no_session_result skip = ok []
no_session_result MissingSessionPolicy.raise = err no_sessions

-- `_validate_sessions`
unfoldable pub validate_sessions :
    EventClockConfig → List TradingSession → Result EventClockError (List TradingSession)
validate_sessions config [] = no_session_result config.missing_session_policy
validate_sessions config (s ∷ rest) =
    let ordered = sorted by_trade_date (s ∷ rest) in check_sessions ordered >>= λ _. ok ordered

-- The key of `_dedupe` compares the instant, the type and the hint.
unfoldable pub same_key : ClockEvent → ClockEvent → Bool
same_key a b =
    time_eq (ensure_aware a.timestamp) (ensure_aware b.timestamp)
    && (event_type_eq a.event_type b.event_type && eqb_ℤ a.sequence_hint b.sequence_hint)

-- `key in by_key`
abbrev pub has_key : ClockEvent → List ClockEvent → Bool
has_key e [] = false
has_key e (x ∷ xs) = if same_key x e then true else has_key e xs

-- `by_key[key] = item` for a key that is there: the place of the key stays.
abbrev pub replace_key : ClockEvent → List ClockEvent → List ClockEvent
replace_key e [] = []
replace_key e (x ∷ xs) = if same_key x e then e ∷ xs else x ∷ replace_key e xs

-- What a policy makes of an event whose key is there already.
abbrev pub on_duplicate :
    DuplicateEventPolicy → ClockEvent → List ClockEvent → Result EventClockError (List ClockEvent)
on_duplicate keep_first e seen = ok seen
on_duplicate keep_last e seen = ok (replace_key e seen)
on_duplicate _ e seen = err (duplicate_event e.timestamp e.event_type)

unfoldable pub dedupe_from :
    DuplicateEventPolicy
    → List ClockEvent
    → List ClockEvent
    → Result EventClockError (List ClockEvent)
dedupe_from policy seen [] = ok seen
dedupe_from policy seen (e ∷ rest) =
    (if has_key e seen then on_duplicate policy e seen else ok (seen ++ e ∷ [])) >>= λ seen'.
    dedupe_from policy seen' rest

-- `_dedupe`
unfoldable pub dedupe :
    DuplicateEventPolicy → List ClockEvent → Result EventClockError (List ClockEvent)
dedupe keep_all events = ok events
dedupe policy events = dedupe_from policy [] events

-- The key by which `build` sorts.
abbrev pub event_order : Preorder ClockEvent
event_order = lexical (by_key (λ e. ensure_aware e.timestamp) time_order) (
    lexical (by_key (λ e. e.priority) int_order) (
      lexical (by_key (λ e. event_value e.event_type) text_order)
        (by_key (λ e. e.sequence_hint) int_order)))

module _ (isoformat : ℕ → String) where
  -- `_default_session_events`
  unfoldable pub default_session_events : EventClockConfig → List TradingSession → List ClockEvent
  default_session_events config [] = []
  default_session_events config (s ∷ rest) =
      let more = default_session_events config rest in
      let payload : List (String × String) = ("trade_date", isoformat s.trade_date) ∷ [] in
      if s.is_trading_day
      then record {
        timestamp = ensure_aware s.open_timestamp;
        event_type = session_open;
        priority = priority_of config.event_priorities session_open session_open_priority;
        sequence_hint = pos 0;
        payload = payload;
      }
        ∷ record {
          timestamp = ensure_aware s.close_timestamp;
          event_type = session_close;
          priority = priority_of config.event_priorities session_close session_close_priority;
          sequence_hint = pos 0;
          payload = payload;
        }
        ∷ more
      else more

-- The copy that `build` makes of each event.
abbrev pub normalize : EventClockConfig → ClockEvent → ClockEvent
normalize config e = record e {
  timestamp = ensure_aware e.timestamp;
  priority = priority_of config.event_priorities e.event_type e.priority;
}

module _ (event_id : ℕ → ClockEvent → String) where
  abbrev pub deterministic : ℕ → ClockEvent → DeterministicEvent
  deterministic n e = record {
    event_id = event_id n e;
    timestamp = ensure_aware e.timestamp;
    event_type = e.event_type;
    priority = e.priority;
    sequence_number = n;
    payload = e.payload;
  }

  -- `enumerate(ordered, start=n)`
  unfoldable pub number_from : ℕ → List ClockEvent → List DeterministicEvent
  number_from n [] = []
  number_from n (e ∷ rest) = deterministic n e ∷ number_from (suc n) rest

module _ (isoformat : ℕ → String) (event_id : ℕ → ClockEvent → String) where
  unfoldable pub build :
      EventClockConfig
      → List TradingSession
      → List ClockEvent
      → Result EventClockError (List DeterministicEvent)
  build config sessions timed_events = validate_sessions config sessions >>= λ valid.
      let clock_events = default_session_events isoformat config valid ++ timed_events in
      dedupe config.duplicate_event_policy (map (normalize config) clock_events) >>= λ deduped.
      ok (number_from event_id 1 (sorted event_order deduped))
