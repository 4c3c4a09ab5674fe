-- ===== src/Ledger/DueDates.antt =====
-- What `snapshot` of backend/portfolio/cash.py counts as settled: an amount that is due.
use option_research_platform.Base.{
  ◌≡◌, refl, sym, subst, ap, inl, inr, Bool, true, false, not, List, [], ◌∷◌, map, arith,
  if◌then◌else◌, Bool-cases, le→leb, true≢false, ◌&&◌,
}
use option_research_platform.Base.Int.{
  ℤ, pos, negsuc, ◌+ℤ◌, ◌*ℤ◌, ◌≤ℤ◌, eqb_ℤ, leb_ℤ, int_laws, leb_ℤ→≤ℤ, *ℤ_nonneg,
}
use option_research_platform.Base.Value.{Amount}
use option_research_platform.Base.Time.{
  Datetime, ensure_aware, instant, micros_per_day, time_lt, instant-ensure_aware,
  instant-add_micros,
}
use option_research_platform.Ledger.{
  CashEvent, CashEventType, SettlementTiming, AccountConfiguration, Totals, lag_days, post, tally,
  tally_one, snapshot, opening, balance_of,
}

-- When the amount of an event is due.
abbrev pub due_instant : SettlementTiming → CashEvent → ℤ
due_instant timing e =
    instant e.trade_timestamp +ℤ lag_days timing e.event_type *ℤ pos micros_per_day

no_lag : (n : ℤ) → eqb_ℤ n (pos 0) ≡ true → (x : ℤ) → x +ℤ n *ℤ pos micros_per_day ≡ x
unfolding ◌*ℤ◌
no_lag (pos n) h x = let none_left : n ≡ 0 = ground arith in rw none_left (omega int_laws)
no_lag (negsuc n) h x = absurd (ground arith)

settlement_instant :
    (timing : SettlementTiming)
    → (e : CashEvent) → instant (post timing e).settlement_timestamp ≡ due_instant timing e
unfolding post
settlement_instant timing e = elim (Bool-cases (eqb_ℤ (lag_days timing e.event_type) (pos 0))) [
  | inl h ↦ rw h (
      rw (instant-ensure_aware e.trade_timestamp)
        (sym (no_lag (lag_days timing e.event_type) h (instant e.trade_timestamp))))
  | inr h ↦ rw h (
      rw
        (instant-add_micros (ensure_aware e.trade_timestamp)
          (lag_days timing e.event_type *ℤ pos micros_per_day))
        (rw (instant-ensure_aware e.trade_timestamp) refl))
]

abbrev pub total_where : (CashEvent → Bool) → List CashEvent → Amount
total_where p [] = pos 0
total_where p (e ∷ rest) = (if p e then e.amount else pos 0) +ℤ total_where p rest

module _ (timing : SettlementTiming) (as_of : Datetime) where
  -- The amount is due by the time of the snapshot.
  abbrev pub is_due : CashEvent → Bool
  is_due e = leb_ℤ (due_instant timing e) (instant as_of)

  -- The event has happened, and its amount is not due yet.
  abbrev pub is_pending : CashEvent → Bool
  is_pending e = leb_ℤ (instant e.trade_timestamp) (instant as_of) && not (is_due e)

  module _ (no_early : (kind : CashEventType) → pos 0 ≤ℤ lag_days timing kind) where
    due-traded : (e : CashEvent) → is_due e ≡ true → instant e.trade_timestamp ≤ℤ instant as_of
    due-traded e h = omega (
      int_laws,
      leb_ℤ→≤ℤ,
      leb_ℤ→≤ℤ (due_instant timing e) (instant as_of) h,
      *ℤ_nonneg (lag_days timing e.event_type) (pos micros_per_day) (no_early e.event_type)
          (omega arith),
    )

    -- What the two tests of the loop say of a posting.
    late_lem :
        (e : CashEvent)
        → time_lt as_of (post timing e).effective_timestamp
          ≡ not (leb_ℤ (instant e.trade_timestamp) (instant as_of))
    unfolding post
    late_lem e = rw (instant-ensure_aware e.trade_timestamp) (ground arith)

    whole_amount :
        (e : CashEvent)
        → (post timing e).settled_delta +ℤ (post timing e).unsettled_delta ≡ e.amount
    unfolding post
    whole_amount e = elim (Bool-cases (eqb_ℤ (lag_days timing e.event_type) (pos 0))) [
      | inl h ↦ rw h (omega int_laws)
      | inr h ↦ rw h (omega int_laws)
    ]

    later_amount :
        (e : CashEvent)
        → is_due e ≡ false
        → leb_ℤ (instant e.trade_timestamp) (instant as_of) ≡ true
        → ((post timing e).settled_delta ≡ pos 0) × ((post timing e).unsettled_delta ≡ e.amount)
    unfolding post
    later_amount e due traded = elim (Bool-cases (eqb_ℤ (lag_days timing e.event_type) (pos 0))) [
      | inl h ↦ absurd (
          true≢false traded
            (rw (no_lag (lag_days timing e.event_type) h (instant e.trade_timestamp)) at due))
      | inr h ↦ rw h (refl, refl)
    ]

    tally_one-post :
        (e : CashEvent) (t : Totals)
        → ((tally_one as_of (post timing e) t).settled
            ≡ t.settled +ℤ (if is_due e then e.amount else pos 0))
          × ((tally_one as_of (post timing e) t).unsettled
              ≡ t.unsettled +ℤ (if is_pending e then e.amount else pos 0))
    unfolding tally_one
    tally_one-post e t = elim (Bool-cases (is_due e)) [
      | inl due ↦
          let traded : leb_ℤ (instant e.trade_timestamp) (instant as_of) ≡ true =
            le→leb _ _ (due-traded e due) in
          rw (late_lem e) (
            rw (settlement_instant timing e)
              (rw due (rw traded (ap (λ x. t.settled +ℤ x) (whole_amount e), omega int_laws))))
      | inr due ↦ elim (Bool-cases (leb_ℤ (instant e.trade_timestamp) (instant as_of))) [
        | inl traded ↦ rw (late_lem e) (
            rw (settlement_instant timing e) (
              rw due (
                rw traded (
                  let later = later_amount e due traded in
                  (ap (λ x. t.settled +ℤ x) later.0, ap (λ x. t.unsettled +ℤ x) later.1)))))
        | inr early ↦ rw (late_lem e) (rw due (rw early (omega int_laws, omega int_laws)))
      ]
    ]

    tally-post :
        (events : List CashEvent) (t : Totals)
        → let end = tally as_of (map (post timing) events) t in
          (end.settled ≡ t.settled +ℤ total_where is_due events)
          × (end.unsettled ≡ t.unsettled +ℤ total_where is_pending events)
    unfolding tally
    tally-post [] t = (omega int_laws, omega int_laws)
    tally-post (e ∷ rest) t =
        let one = tally_one-post e t in
        let others = tally-post rest (tally_one as_of (post timing e) t) in
        (rw others.0 (rw one.0 (omega int_laws)), rw others.1 (rw one.1 (omega int_laws)))

-- Where no settlement lag is negative, a snapshot of posted events counts as settled cash, beside the opening balance,
-- exactly the amounts that are due by its time (the trade time and the lag of the kind of event in
-- days), and as unsettled cash those that are traded but not due yet.
pub snapshot_settles_when_due :
    (timing : SettlementTiming)
    → ((kind : CashEventType) → pos 0 ≤ℤ lag_days timing kind)
    → (c : AccountConfiguration) → (events : List CashEvent) → (as_of : Datetime)
    → let s = snapshot c (map (post timing) events) as_of in
      (s.settled_cash ≡ c.settled_cash +ℤ total_where (is_due timing as_of) events)
      × (s.unsettled_cash ≡ c.unsettled_cash +ℤ total_where (is_pending timing as_of) events)
unfolding snapshot
snapshot_settles_when_due timing no_early c events as_of =
    subst
      (λ now.
        let s =
          balance_of (ensure_aware as_of)
            (tally (ensure_aware as_of) (map (post timing) events) (opening c)) in
        (s.settled_cash
          ≡ c.settled_cash +ℤ total_where (λ e. leb_ℤ (due_instant timing e) now) events)
        × (s.unsettled_cash
            ≡ c.unsettled_cash
              +ℤ total_where
                  (λ e.
                    leb_ℤ (instant e.trade_timestamp) now && not (leb_ℤ (due_instant timing e) now))
                  events))
      (instant-ensure_aware as_of)
      (tally-post timing (ensure_aware as_of) no_early events (opening c))
