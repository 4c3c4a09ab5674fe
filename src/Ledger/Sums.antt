-- ===== src/Ledger/Sums.antt =====
-- The sums of `snapshot` of backend/portfolio/cash.py as such, and that nothing is lost between
-- them.
use option_research_platform.Base.{
  ◌≡◌, refl, ap, ◌∙◌, inl, inr, List, [], ◌∷◌, if◌then◌else◌, Bool-cases, Bool, not, ◌&&◌, select,
}
use option_research_platform.Base.Int.{pos, ◌+ℤ◌, ◌-ℤ◌, int_laws}
use option_research_platform.Base.Value.{Amount}
use option_research_platform.Base.Time.{Datetime, ensure_aware, time_lt, time_le}
use option_research_platform.Ledger.{
  CashPosting, AccountConfiguration, Totals, tally, tally_one, snapshot, opening,
}

-- The sum of a field.
abbrev pub total_of : (CashPosting → Amount) → List CashPosting → Amount
total_of field [] = pos 0
total_of field (p ∷ rest) = field p +ℤ total_of field rest

module _ (as_of : Datetime) where
  -- A posting that has taken effect, one whose cash has settled, and one whose cash has not.
  abbrev pub in_effect : CashPosting → Bool
  in_effect p = not (time_lt as_of p.effective_timestamp)

  abbrev pub has_settled : CashPosting → Bool
  has_settled p = in_effect p && time_le p.settlement_timestamp as_of

  abbrev pub is_waiting : CashPosting → Bool
  is_waiting p = in_effect p && not (time_le p.settlement_timestamp as_of)

  -- What the postings make of the totals, each total by itself.
  abbrev Sums : List CashPosting → Totals → Totals → Type 0
  Sums ps before after =
      (after.settled
        ≡ before.settled
          +ℤ total_of (λ p. p.settled_delta +ℤ p.unsettled_delta) (select has_settled ps)
          +ℤ total_of (λ p. p.settled_delta) (select is_waiting ps))
      × (after.unsettled
          ≡ before.unsettled +ℤ total_of (λ p. p.unsettled_delta) (select is_waiting ps))
      × (after.reserved ≡ before.reserved +ℤ total_of (λ p. p.reserved_delta) (select in_effect ps))
      × (after.held ≡ before.held +ℤ total_of (λ p. p.collateral_delta) (select in_effect ps))

  tally_one-Sums : (p : CashPosting) (t : Totals) → Sums (p ∷ []) t (tally_one as_of p t)
  unfolding tally_one
  tally_one-Sums p t = elim (Bool-cases (time_lt as_of p.effective_timestamp)) [
    | inl late ↦ rw late (omega int_laws, omega int_laws, omega int_laws, omega int_laws)
    | inr now ↦ elim (Bool-cases (time_le p.settlement_timestamp as_of)) [
      | inl settles ↦
          rw now (rw settles ((omega int_laws, omega int_laws, omega int_laws, omega int_laws)))
      | inr waits ↦
          rw now (rw waits ((omega int_laws, omega int_laws, omega int_laws, omega int_laws)))
    ]
  ]

  first_of :
      (f : CashPosting → Amount) (test : CashPosting → Bool) (p : CashPosting)
      (rest : List CashPosting)
      → total_of f (select test (p ∷ rest))
        ≡ total_of f (select test (p ∷ [])) +ℤ total_of f (select test rest)
  first_of f test p rest = elim (Bool-cases (test p)) [
    | inl taken ↦ rw taken (omega int_laws)
    | inr left ↦ rw left (omega int_laws)
  ]

  add : (a b x y z : Amount) → z ≡ a +ℤ x → b ≡ z +ℤ y → b ≡ a +ℤ (x +ℤ y)
  add a b x y z h k = k ∙ ap (λ w. w +ℤ y) h ∙ omega int_laws

  add_two :
      (a b x y u v z : Amount) → z ≡ a +ℤ x +ℤ u → b ≡ z +ℤ y +ℤ v → b ≡ a +ℤ (x +ℤ y) +ℤ (u +ℤ v)
  add_two a b x y u v z h k = k ∙ ap (λ w. w +ℤ y +ℤ v) h ∙ omega int_laws

  tally-Sums : (ps : List CashPosting) (t : Totals) → Sums ps t (tally as_of ps t)
  unfolding tally
  tally-Sums [] t = (omega int_laws, omega int_laws, omega int_laws, omega int_laws)
  tally-Sums (p ∷ ps) t =
      let (a, b, c, d) = tally_one-Sums p t in
      let (e, f, g, h) = tally-Sums ps (tally_one as_of p t) in
      (
        rw
            (
              first_of (λ q. q.settled_delta +ℤ q.unsettled_delta) has_settled p ps,
              first_of (λ q. q.settled_delta) is_waiting p ps,
            )
            (add_two _ _ _ _ _ _ _ a e),
        rw (first_of (λ q. q.unsettled_delta) is_waiting p ps) (add _ _ _ _ _ b f),
        rw (first_of (λ q. q.reserved_delta) in_effect p ps) (add _ _ _ _ _ c g),
        rw (first_of (λ q. q.collateral_delta) in_effect p ps) (add _ _ _ _ _ d h),
      )

  -- The amounts of the postings in effect, settled or not.
  abbrev pub moved : List CashPosting → Amount
  moved [] = pos 0
  moved (p ∷ rest) =
      (if time_lt as_of p.effective_timestamp then pos 0 else p.settled_delta +ℤ p.unsettled_delta)
      +ℤ moved rest

  tally_one-net :
      (p : CashPosting) (t : Totals)
      → (tally_one as_of p t).settled +ℤ (tally_one as_of p t).unsettled
        ≡ t.settled
          +ℤ t.unsettled
          +ℤ (if time_lt as_of p.effective_timestamp
              then pos 0
              else p.settled_delta +ℤ p.unsettled_delta)
  unfolding tally_one
  tally_one-net p t = elim (Bool-cases (time_lt as_of p.effective_timestamp)) [
    | inl late ↦ rw late (omega int_laws)
    | inr now ↦ elim (Bool-cases (time_le p.settlement_timestamp as_of)) [
      | inl settles ↦ rw now (rw settles (omega int_laws))
      | inr waits ↦ rw now (rw waits (omega int_laws))
    ]
  ]

  tally-net :
      (ps : List CashPosting) (t : Totals)
      → let end = tally as_of ps t in
        end.settled +ℤ end.unsettled ≡ t.settled +ℤ t.unsettled +ℤ moved ps
  unfolding tally
  tally-net [] t = omega int_laws
  tally-net (p ∷ rest) t =
      rw (tally-net rest (tally_one as_of p t)) (rw (tally_one-net p t) (omega int_laws))

-- A snapshot is the sums of the postings, whatever their order in time: the settled cash is the opening
-- one, all that the postings moved whose settlement is due, and what the others in effect moved at
-- once; the unsettled cash is the opening one and what is due later; the reserved and the collateral
-- cash are those of the postings in effect, and the free cash is what they leave of the settled cash.
pub snapshot_sums :
    (c : AccountConfiguration) (ps : List CashPosting) (as_of : Datetime)
    → let s = snapshot c ps as_of in
      let at = ensure_aware as_of in
      (s.settled_cash
        ≡ c.settled_cash
          +ℤ total_of (λ p. p.settled_delta +ℤ p.unsettled_delta) (select (has_settled at) ps)
          +ℤ total_of (λ p. p.settled_delta) (select (is_waiting at) ps))
      × (s.unsettled_cash
          ≡ c.unsettled_cash +ℤ total_of (λ p. p.unsettled_delta) (select (is_waiting at) ps))
      × (s.reserved_cash ≡ total_of (λ p. p.reserved_delta) (select (in_effect at) ps))
      × (s.collateral_cash ≡ total_of (λ p. p.collateral_delta) (select (in_effect at) ps))
      × (s.free_cash ≡ s.settled_cash -ℤ s.reserved_cash -ℤ s.collateral_cash)
unfolding snapshot
snapshot_sums c ps as_of =
    let (settled, unsettled, reserved, held) = tally-Sums (ensure_aware as_of) ps (opening c) in
    (settled, unsettled, reserved ∙ omega int_laws, held ∙ omega int_laws, refl)

-- In every snapshot the settled cash is the free, the reserved and the collateral cash together, and
-- the net cash is the opening cash and what the postings in effect moved, settled or not.
pub snapshot_conserves :
    (c : AccountConfiguration) (ps : List CashPosting) (as_of : Datetime)
    → let s = snapshot c ps as_of in
      (s.free_cash +ℤ s.reserved_cash +ℤ s.collateral_cash ≡ s.settled_cash)
      × (s.net_cash ≡ c.settled_cash +ℤ c.unsettled_cash +ℤ moved (ensure_aware as_of) ps)
unfolding snapshot
snapshot_conserves c ps as_of = (omega int_laws, tally-net (ensure_aware as_of) ps (opening c))
