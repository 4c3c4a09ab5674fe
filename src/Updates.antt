-- ===== src/Updates.antt =====
-- The planner of incremental updates, backend/data/update/planner.py. A date is its ordinal; the end
-- of the calendar, where `date` raises OverflowError, is not modelled.
pub mod Days
mod Merging
mod Gaps
mod Plan
mod Tests
use option_research_platform.Base.{
  ℕ, ◌+◌, ◌-◌, ◌≤◌, Bool, true, false, not, List, [], ◌∷◌, ◌++◌, select, ltb, leb, if◌then◌else◌,
  ◌||◌,
}
use option_research_platform.Base.Order.{Preorder, by_key, lexical, nat_order}
use option_research_platform.Base.Sort.{sorted}
use option_research_platform.Base.Result.{Result, ok, err, ◌>>=◌}

-- Inclusive.
pub record DateRange : Type 0 where
  pub start : ℕ
  pub end : ℕ

-- ValueError
pub data RangeError : Type 0 where
  start_after_end : RangeError

-- The constructor, with the check of `__post_init__`.
unfoldable pub date_range : ℕ → ℕ → Result RangeError DateRange
date_range start end =
    if ltb end start then err start_after_end else ok (record { start = start; end = end })

pub record IncrementalUpdatePlan : Type 0 where
  pub requested : DateRange
  pub cached : List DateRange
  pub missing : List DateRange

abbrev pub max : ℕ → ℕ → ℕ
max a b = if ltb a b then b else a

abbrev pub min : ℕ → ℕ → ℕ
min a b = if ltb b a then b else a

abbrev pub range_order : Preorder DateRange
range_order = lexical (by_key (λ r. r.start) nat_order) (by_key (λ r. r.end) nat_order)

-- The loop of `_merge_ranges`; `previous` is the last range of `merged`.
unfoldable pub merge_from : DateRange → List DateRange → Result RangeError (List DateRange)
unfolding date_range
merge_from previous [] = ok (previous ∷ [])
merge_from previous (current ∷ rest) = elim (leb current.start (previous.end + 1)) [
  | true ↦
      date_range previous.start (max previous.end current.end) >>= λ joined. merge_from joined rest
  | false ↦ merge_from current rest >>= λ merged. ok (previous ∷ merged)
]

abbrev pub merge_sorted : List DateRange → Result RangeError (List DateRange)
merge_sorted [] = ok []
merge_sorted (first ∷ rest) = merge_from first rest

abbrev pub merge_ranges : List DateRange → Result RangeError (List DateRange)
merge_ranges ranges = merge_sorted (sorted range_order ranges)

-- The missing windows before the cursor, and the cursor.
pub record Progress : Type 0 where
  pub windows : List DateRange
  pub cursor : ℕ

-- `if cached.start > cursor: missing.append(...)`
unfoldable pub gap_before : DateRange → ℕ → DateRange → Result RangeError (List DateRange)
unfolding date_range
gap_before requested cursor cached =
    if ltb cursor cached.start
    then (date_range cursor (min (cached.start - 1) requested.end) >>= λ gap. ok (gap ∷ []))
    else ok []

-- The loop over the cached ranges, which leaves when the cursor has passed the request.
unfoldable pub scan : DateRange → ℕ → List DateRange → Result RangeError Progress
unfolding gap_before
scan requested cursor [] = ok (record { windows = []; cursor = cursor })
scan requested cursor (cached ∷ rest) = gap_before requested cursor cached >>= λ gap.
    let next = max cursor (cached.end + 1) in
    elim (ltb requested.end next) [
      | true ↦ ok (record { windows = gap; cursor = next })
      | false ↦ scan requested next rest >>= λ p. ok (record p { windows = gap ++ p.windows })
    ]

-- The window behind the last cached range.
unfoldable pub last_window : DateRange → Progress → Result RangeError (List DateRange)
unfolding date_range
last_window requested p =
    if leb p.cursor requested.end
    then (date_range p.cursor requested.end >>= λ window. ok (p.windows ++ window ∷ []))
    else ok p.windows

abbrev pub overlaps : DateRange → DateRange → Bool
overlaps requested cached = not (ltb cached.end requested.start || ltb requested.end cached.start)

-- `plan_incremental_update`
unfoldable pub plan_update : DateRange → List DateRange → Result RangeError IncrementalUpdatePlan
unfolding scan last_window merge_from
plan_update requested cached_ranges =
    merge_ranges (select (overlaps requested) cached_ranges) >>= λ merged.
    scan requested requested.start merged >>= λ p. last_window requested p >>= λ missing.
    ok (record {
      requested = requested;
      cached = merged;
      missing = select (λ window. leb window.start window.end) missing;
    })
