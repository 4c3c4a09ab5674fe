-- ===== src/Clock/Tests.antt =====
-- Runs of the event clock, and each theorem at a concrete input.
use mathlib.Core.List.{Perm, map}
use option_research_platform.Base.{ℕ, true, String, none, some, List, [], ◌∷◌, ◌++◌, ◌≡◌, refl}
use option_research_platform.Base.Int.{pos, ◌-ℤ◌}
use option_research_platform.Base.Sort.{IsSorted}
use option_research_platform.Base.Time.{Datetime, ensure_aware}
use option_research_platform.Base.Result.{ok}
use option_research_platform.Clock.Events.{
  EventType, quote, earnings, market_halt, session_open, session_close, DuplicateEventPolicy,
  keep_first, keep_last, skip, TradingSession, ClockEvent, DeterministicEvent, EventClockConfig,
}
use option_research_platform.Clock.Build.{
  same_key, validate_sessions, check_sessions, default_session_events, dedupe, dedupe_from,
  normalize, number_from, build,
}
use option_research_platform.Clock.Keys.{DistinctKeys, find_first, find_last}
use option_research_platform.Clock.Duplicates.{dedupe_keeps}
use option_research_platform.Clock.Stream.{
  IsNumbered, stream_order, content, stream_content, build_stream,
}

-- Naive readings and readings in UTC.
abbrev at : ℕ → Datetime
at n = record { wall = pos n; utcoffset = none }

abbrev utc : ℕ → Datetime
utc n = record { wall = pos n; utcoffset = some (pos 0) }

abbrev dated : List (String × String)
dated = ("trade_date", "2024-01-02") ∷ []

abbrev event : EventType → ℕ → ℕ → ClockEvent
event t n p = record {
  timestamp = at n;
  event_type = t;
  priority = pos p;
  sequence_hint = pos 0;
  payload = [];
}

abbrev config : DuplicateEventPolicy → EventClockConfig
config policy = record {
  duplicate_event_policy = policy;
  missing_session_policy = skip;
  event_priorities = (earnings, pos 60) ∷ [];
}

abbrev isoformat : ℕ → String
isoformat n = "2024-01-02"

abbrev event_id : ℕ → ClockEvent → String
event_id n e = "id"

abbrev session : TradingSession
session = record {
  trade_date = 738887;
  open_timestamp = at 34200;
  close_timestamp = at 57600;
  is_trading_day = true;
}

-- Two quotes with one key and different priorities.
abbrev timed : List ClockEvent
timed = event quote 40000 40 ∷ event market_halt 40000 5 ∷ event quote 40000 41 ∷ []

abbrev stream : List DeterministicEvent
stream = number_from event_id 1 (
    record (event session_open 34200 20) { timestamp = utc 34200; payload = dated }
    ∷ record (event market_halt 40000 5) { timestamp = utc 40000 }
    ∷ record (event quote 40000 40) { timestamp = utc 40000 }
    ∷ record (event session_close 57600 110) { timestamp = utc 57600; payload = dated }
    ∷ [])

build-stream : build isoformat event_id (config keep_first) (session ∷ []) timed ≡ ok stream
unfolding build validate_sessions check_sessions default_session_events dedupe dedupe_from same_key
    number_from ensure_aware ◌-ℤ◌
build-stream = refl

build_stream_example :
    IsNumbered 1 stream
    × IsSorted stream_order stream
    × ((valid : List TradingSession) × (kept : List ClockEvent) × (validate_sessions
            (config keep_first)
            (session ∷ [])
          ≡ ok valid)
        × (dedupe keep_first (
              map
                (normalize (config keep_first))
                (default_session_events isoformat (config keep_first) valid ++ timed))
            ≡ ok kept)
        × Perm (map stream_content stream) (map content kept))
build_stream_example =
    build_stream isoformat event_id (config keep_first) (session ∷ []) timed stream build-stream

dedupe_keeps_example :
    ((out : List ClockEvent) × (dedupe keep_first timed ≡ ok out)
      × DistinctKeys out
      × ((k : ClockEvent) → find_first k out ≡ find_first k timed))
    × ((out : List ClockEvent) × (dedupe keep_last timed ≡ ok out)
        × DistinctKeys out
        × ((k : ClockEvent) → find_first k out ≡ find_last k timed))
dedupe_keeps_example = dedupe_keeps timed
