-- ===== src/Clock/Stream.antt =====
-- What `build` of backend/backtesting/clock.py returns: the numbering, the order and the contents
-- of the stream.
use mathlib.Core.List.{Perm, map}
use mathlib.Core.List.Perm
use option_research_platform.Base.{
  ℕ, suc, true, String, List, [], ◌∷◌, ◌++◌, ◌≡◌, refl, ap, subst, arith, All,
}
use option_research_platform.Base.Int.{ℤ}
use option_research_platform.Base.Order.{Preorder, by_key, lexical, int_order}
use option_research_platform.Base.Sort.{sorted, IsSorted, sorted-IsSorted, sorted-perm}
use option_research_platform.Base.Text.{text_order}
use option_research_platform.Base.Time.{Datetime, ensure_aware, time_order}
use option_research_platform.Base.Result.{ok, >>=-eq-ok, ok-injective}
use option_research_platform.Clock.Events.{
  EventType, event_value, TradingSession, ClockEvent, DeterministicEvent, EventClockConfig,
}
use option_research_platform.Clock.Build.{
  validate_sessions, default_session_events, dedupe, event_order, normalize, deterministic,
  number_from, build,
}

-- The order of the stream: the instant, then the priority, then the type's text.
abbrev pub stream_order : Preorder DeterministicEvent
stream_order = lexical (by_key (λ e. e.timestamp) time_order) (
    lexical (by_key (λ e. e.priority) int_order)
      (by_key (λ e. event_value e.event_type) text_order))

-- The sequence numbers count up from `n`.
abbrev pub IsNumbered : ℕ → List DeterministicEvent → Type 0
IsNumbered n [] = Unit
IsNumbered n (e ∷ es) = (e.sequence_number ≡ n) × IsNumbered (suc n) es

-- What the stream keeps of an event.
abbrev pub Content : Type 0
Content = Datetime × EventType × ℤ × List (String × String)

abbrev pub content : ClockEvent → Content
content e = (ensure_aware e.timestamp, e.event_type, e.priority, e.payload)

abbrev pub stream_content : DeterministicEvent → Content
stream_content e = (e.timestamp, e.event_type, e.priority, e.payload)

lexical_drop :
    {A : Type 0} (o p q r : Preorder A) (a b : A)
    → (lexical o (lexical p (lexical q r))).le a b ≡ true
    → (lexical o (lexical p q)).le a b ≡ true
lexical_drop o p q r a b h = ground arith

module _ (event_id : ℕ → ClockEvent → String) where
  number_from-IsNumbered : (n : ℕ) (es : List ClockEvent) → IsNumbered n (number_from event_id n es)
  unfolding number_from
  number_from-IsNumbered n [] = tt
  number_from-IsNumbered n (e ∷ es) = (refl, number_from-IsNumbered (suc n) es)

  map-number_from :
      (n : ℕ) (es : List ClockEvent)
      → map stream_content (number_from event_id n es) ≡ map content es
  unfolding number_from
  map-number_from n [] = refl
  map-number_from n (e ∷ es) = ap (◌∷◌ (content e)) (map-number_from (suc n) es)

  number_from-All :
      (e : ClockEvent) (k n : ℕ) (es : List ClockEvent)
      → All (λ x. event_order.le e x ≡ true) es
      → All (λ x. stream_order.le (deterministic event_id k e) x ≡ true) (number_from event_id n es)
  unfolding number_from
  number_from-All e k n [] h = tt
  number_from-All e k n (x ∷ es) h = (
    lexical_drop (by_key (λ (y : ClockEvent). ensure_aware y.timestamp) time_order)
        (by_key (λ y. y.priority) int_order) (by_key (λ y. event_value y.event_type) text_order)
        (by_key (λ y. y.sequence_hint) int_order) e x h.0,
    number_from-All e k (suc n) es h.1,
  )

  number_from-IsSorted :
      (n : ℕ) (es : List ClockEvent)
      → IsSorted event_order es
      → IsSorted stream_order (number_from event_id n es)
  unfolding number_from
  number_from-IsSorted n [] h = tt
  number_from-IsSorted n (e ∷ es) h =
      (number_from-All e n (suc n) es h.0, number_from-IsSorted (suc n) es h.1)

module _ (isoformat : ℕ → String) (event_id : ℕ → ClockEvent → String) where
  -- A stream that `build` returns is numbered from 1 without a gap and sorted by instant,
  -- priority and the text of the type. Its contents are, each as often, those that the
  -- duplicate policy left of the sessions' own events and the given ones.
  pub build_stream :
      (config : EventClockConfig) (sessions : List TradingSession) (timed : List ClockEvent)
      (out : List DeterministicEvent)
      → build isoformat event_id config sessions timed ≡ ok out
      → IsNumbered 1 out
        × IsSorted stream_order out
        × ((valid : List TradingSession) × (kept : List ClockEvent) × (validate_sessions config
                sessions
              ≡ ok valid)
            × (dedupe config.duplicate_event_policy
                  (map (normalize config) (default_session_events isoformat config valid ++ timed))
                ≡ ok kept)
            × Perm (map stream_content out) (map content kept))
  unfolding build
  build_stream config sessions timed out h =
      let (valid, v, rest) = >>=-eq-ok (validate_sessions config sessions) _ h in
      let (kept, d, made) = >>=-eq-ok (dedupe config.duplicate_event_policy _) _ rest in
      let e : number_from event_id 1 (sorted event_order kept) ≡ out = ok-injective made in
      (
        subst (IsNumbered 1) e (number_from-IsNumbered event_id 1 (sorted event_order kept)),
        subst (IsSorted stream_order) e (
            number_from-IsSorted event_id 1 (sorted event_order kept)
              (sorted-IsSorted event_order kept)),
        (
          valid,
          kept,
          v,
          d,
          subst (λ l. Perm (map stream_content l) (map content kept)) e
              (rw (map-number_from event_id 1 (sorted event_order kept))
                (Perm.map content (sorted-perm event_order kept))),
        ),
      )
