-- ===== src/Updates/Gaps.antt =====
-- The loop of `plan_incremental_update` (backend/data/update/planner.py) over ascending ranges.
use option_research_platform.Base.{
  ℕ, ◌+◌, ◌-◌, ◌≤◌, ◌<◌, ◌≡◌, refl, ◌∙◌, inl, inr, Bool, true, false, not, List, [], ◌∷◌, ◌++◌, leb,
  ltb, if◌then◌else◌, ◌&&◌, ◌||◌, arith, All, All-append, Bool-cases, ltb→lt, true≢false,
}
use option_research_platform.Base.Result.{ok}
use option_research_platform.Updates.{DateRange, Progress, max, min, gap_before, scan}
use option_research_platform.Updates.Days.{
  within, covered, times_covered, times_covered-append, IsRange,
}
use option_research_platform.Updates.Merging.{IsAscending, date_range_lem}

-- 1 for a missing day before the cursor `next`: one from the cursor on, inside the request, that
-- no range has.
abbrev pub missing_in : DateRange → ℕ → ℕ → List DateRange → ℕ → ℕ
missing_in requested from next cached day =
    if leb from day && (ltb day next && (leb day requested.end && not (covered day cached)))
    then 1
    else 0

module _ (q : DateRange) (cursor : ℕ) (c : DateRange) where
  gap_found :
      ltb cursor c.start ≡ true
      → cursor ≤ q.end
      → gap_before q cursor c ≡ ok (record { start = cursor; end = min (c.start - 1) q.end } ∷ [])
  unfolding gap_before
  gap_found wide h =
      rw wide (rw (date_range_lem cursor (min (c.start - 1) q.end) (ground arith)) refl)

  gap_none : ltb cursor c.start ≡ false → gap_before q cursor c ≡ ok []
  unfolding gap_before
  gap_none close = rw close refl

gap_before_lem :
    (q : DateRange) (cursor : ℕ) (c : DateRange)
    → cursor ≤ q.end
    → (gap : List DateRange) × (gap_before q cursor c ≡ ok gap)
      × All IsRange gap
      × ((day : ℕ)
          → times_covered day gap
            ≡ (if leb cursor day && (ltb day c.start && leb day q.end) then 1 else 0))
gap_before_lem q cursor c h = elim (Bool-cases (ltb cursor c.start)) [
  | inl wide ↦ (
    record { start = cursor; end = min (c.start - 1) q.end } ∷ [],
    gap_found q cursor c wide h,
    (ground arith, tt),
    λ day. ground arith,
  )
  | inr close ↦ ([], gap_none q cursor c close, tt, λ day. ground arith)
]

uncovered_before :
    (day start : ℕ) (rest : List DateRange)
    → All (λ x. start ≤ x.start) rest
    → day < start
    → covered day rest ≡ false
uncovered_before day start [] h k = refl
uncovered_before day start (r ∷ rest) h k =
    ground (arith, h.0, uncovered_before day start rest h.1 k)

-- A day is in the gap before a range, or missing behind it, or not missing.
one_range :
    (q c : DateRange) (cursor k day : ℕ) (later : Bool)
    → IsRange c
    → max cursor (c.end + 1) ≤ k
    → (day < c.start → later ≡ false)
    → (if leb cursor day && (ltb day c.start && leb day q.end) then 1 else 0)
        + (if leb (max cursor (c.end + 1)) day && (ltb day k && (leb day q.end && not later))
            then 1
            else 0)
      ≡ (if leb cursor day && (ltb day k && (leb day q.end && not (within day c || later)))
          then 1
          else 0)
one_range q c cursor k day true h l m = elim (Bool-cases (ltb day c.start)) [
  | inl early ↦ absurd (true≢false refl (m (ltb→lt _ _ early)))
  | inr late ↦ ground arith
]
one_range q c cursor k day false h l m = ground arith

module _ (q : DateRange) (cursor : ℕ) (c : DateRange) (rest gap : List DateRange) where
  scan_leaves :
      ltb q.end (max cursor (c.end + 1)) ≡ true
      → gap_before q cursor c ≡ ok gap
      → scan q cursor (c ∷ rest) ≡ ok (record { windows = gap; cursor = max cursor (c.end + 1) })
  unfolding scan
  scan_leaves past found = rw found (rw past refl)

  scan_goes_on :
      (p : Progress)
      → ltb q.end (max cursor (c.end + 1)) ≡ false
      → gap_before q cursor c ≡ ok gap
      → scan q (max cursor (c.end + 1)) rest ≡ ok p
      → scan q cursor (c ∷ rest) ≡ ok (record p { windows = gap ++ p.windows })
  unfolding scan
  scan_goes_on p inside found later = rw found (rw inside (rw later refl))

-- What the loop has done.
pub record Scanned (q : DateRange) (cursor : ℕ) (cached : List DateRange) (p : Progress)
    : Type 0 where
  pub ranges : All IsRange p.windows
  pub onward : cursor ≤ p.cursor
  pub days : (day : ℕ) → times_covered day p.windows ≡ missing_in q cursor p.cursor cached day
  pub behind : (day : ℕ) → p.cursor ≤ day → day ≤ q.end → covered day cached ≡ false

pub scan_lem :
    (q : DateRange) (cursor : ℕ) (cached : List DateRange)
    → cursor ≤ q.end
    → All IsRange cached
    → IsAscending cached
    → (p : Progress) × (scan q cursor cached ≡ ok p) × Scanned q cursor cached p
unfolding scan
scan_lem q cursor [] h valid up = (
  record { windows = []; cursor = cursor },
  refl,
  record {
    ranges = tt;
    onward = omega arith;
    days = λ day. ground arith;
    behind = λ day k l. refl;
  },
)
scan_lem q cursor (c ∷ rest) h valid up =
    let (gap, found, gap_valid, gap_days) = gap_before_lem q cursor c h in
    let next : ℕ = max cursor (c.end + 1) in
    let early : ((day : ℕ) → day < c.start → covered day rest ≡ false) =
      λ day k. uncovered_before day c.start rest up.0 k in
    elim (Bool-cases (ltb q.end (max cursor (c.end + 1)))) [
      | inl past ↦ (
        record { windows = gap; cursor = max cursor (c.end + 1) },
        scan_leaves q cursor c rest gap past found,
        record {
          ranges = gap_valid;
          onward = ground arith;
          days = λ day. ground (
            arith,
            gap_days day,
            one_range q c cursor (max cursor (c.end + 1)) day (covered day rest) valid.0
                (omega arith) (early day),
          );
          behind = λ day k l. absurd (ground arith);
        },
      )
      | inr inside ↦
          let (p, e, g) = scan_lem q (max cursor (c.end + 1)) rest (ground arith) valid.1 up.1 in
          (
            record p { windows = gap ++ p.windows },
            scan_goes_on q cursor c rest gap p inside found e,
            record {
              ranges = All-append IsRange gap p.windows gap_valid g.ranges;
              onward = ground (arith, g.onward);
              days = λ day.
                  times_covered-append day gap p.windows
                  ∙ (λ i. gap_days day i + g.days day i)
                  ∙ one_range q c cursor p.cursor day (covered day rest) valid.0 g.onward
                      (early day);
              behind = λ day k l. ground (arith, g.onward, g.behind day);
            },
          )
    ]
