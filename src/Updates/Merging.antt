-- ===== src/Updates/Merging.antt =====
-- `_merge_ranges` of backend/data/update/planner.py keeps the days, and leaves ascending ranges.
use option_research_platform.Base.{
  ℕ, ◌+◌, ◌≤◌, ◌≡◌, refl, ap, ◌∙◌, inl, inr, Bool, true, false, List, [], ◌∷◌, leb, ◌||◌, arith,
  All, All-weaken, Bool-cases, leb→le,
}
use option_research_platform.Base.Result.{ok, ◌>>=◌}
use option_research_platform.Base.Sort.{IsSorted, sorted, sorted-IsSorted, All-sorted}
use option_research_platform.Updates.{
  DateRange, date_range, max, range_order, merge_from, merge_sorted, merge_ranges,
}
use option_research_platform.Updates.Days.{within, covered, covered-sorted, IsRange}

-- By their first days.
abbrev pub IsAscending : List DateRange → Type 0
IsAscending [] = Unit
IsAscending (r ∷ rest) = All (λ x. r.start ≤ x.start) rest × IsAscending rest

IsSorted-IsAscending : (xs : List DateRange) → IsSorted range_order xs → IsAscending xs
IsSorted-IsAscending [] h = tt
IsSorted-IsAscending (r ∷ rest) h =
    (All-weaken _ _ rest (λ x k. ground arith) h.0, IsSorted-IsAscending rest h.1)

pub date_range_lem : (a b : ℕ) → a ≤ b → date_range a b ≡ ok (record { start = a; end = b })
unfolding date_range
date_range_lem a b h = ground arith

-- What merging gives.
pub record Merges (first : DateRange) (rest merged : List DateRange) : Type 0 where
  pub ranges : All IsRange merged
  pub ascending : IsAscending merged
  pub from : All (λ x. first.start ≤ x.start) merged
  pub days : (day : ℕ) → covered day merged ≡ (within day first || covered day rest)

within_joined :
    (day : ℕ) (p c : DateRange)
    → IsRange p
    → IsRange c
    → p.start ≤ c.start
    → c.start ≤ p.end + 1
    → within day (record { start = p.start; end = max p.end c.end })
      ≡ (within day p || within day c)
within_joined day p c h k l m = ground arith

or_assoc : (a b c : Bool) → ((a || b) || c) ≡ (a || (b || c))
or_assoc true b c = refl
or_assoc false b c = refl

module _ (p c : DateRange) (rest : List DateRange) where
  merge_touching :
      leb c.start (p.end + 1) ≡ true
      → IsRange p
      → merge_from p (c ∷ rest)
        ≡ merge_from (record { start = p.start; end = max p.end c.end }) rest
  unfolding merge_from
  merge_touching touches h =
      rw (touches, merge_from) (rw (date_range_lem p.start (max p.end c.end) (ground arith)) refl)

  merge_apart :
      leb c.start (p.end + 1) ≡ false
      → merge_from p (c ∷ rest) ≡ (merge_from c rest >>= λ merged. ok (p ∷ merged))
  unfolding merge_from
  merge_apart apart = rw (apart, merge_from) refl

merge_alone : (p : DateRange) → merge_from p [] ≡ ok (p ∷ [])
unfolding merge_from
merge_alone p = refl

merge_from_lem :
    (p : DateRange) (rest : List DateRange)
    → IsRange p
    → All IsRange rest
    → All (λ x. p.start ≤ x.start) rest
    → IsAscending rest
    → (merged : List DateRange) × (merge_from p rest ≡ ok merged) × Merges p rest merged
merge_from_lem p [] h k l m = (
  p ∷ [],
  merge_alone p,
  record { ranges = (h, tt); ascending = (tt, tt); from = (omega arith, tt); days = λ day. refl },
)
merge_from_lem p (c ∷ rest) h k l m = elim (Bool-cases (leb c.start (p.end + 1))) [
  | inl touches ↦
      let joined : DateRange = record { start = p.start; end = max p.end c.end } in
      let fits : p.start ≤ max p.end c.end = ground arith in
      let near : c.start ≤ p.end + 1 = leb→le _ _ touches in
      let (merged, e, g) = merge_from_lem joined rest fits k.1 l.1 m.1 in
      (
        merged,
        merge_touching p c rest touches h ∙ e,
        record {
          ranges = g.ranges;
          ascending = g.ascending;
          from = g.from;
          days = λ day.
              g.days day
              ∙ ap (λ b. b || covered day rest) (within_joined day p c h k.0 l.0 near)
              ∙ or_assoc (within day p) (within day c) (covered day rest);
        },
      )
  | inr apart ↦
      let (merged, e, g) = merge_from_lem c rest k.0 k.1 m.0 m.1 in
      let from : All (λ x. p.start ≤ x.start) merged =
        All-weaken _ _ merged (λ x below. omega (arith, l.0, below)) g.from in
      (
        p ∷ merged,
        merge_apart p c rest apart ∙ ap (λ r. r >>= λ m. ok (p ∷ m)) e,
        record {
          ranges = (h, g.ranges);
          ascending = (from, g.ascending);
          from = (omega arith, from);
          days = λ day. ap (λ b. within day p || b) (g.days day);
        },
      )
]

-- Merging never raises, and leaves ascending ranges with the same days.
pub merge_ranges_lem :
    (ranges : List DateRange)
    → All IsRange ranges
    → (merged : List DateRange) × (merge_ranges ranges ≡ ok merged)
      × All IsRange merged
      × IsAscending merged
      × ((day : ℕ) → covered day merged ≡ covered day ranges)
merge_ranges_lem ranges h =
    let (merged, e, valid, ascending, days) =
      sorted_lem (sorted range_order ranges) (All-sorted range_order IsRange ranges h)
        (IsSorted-IsAscending _ (sorted-IsSorted range_order ranges)) in
    (merged, e, valid, ascending, λ day. days day ∙ covered-sorted range_order day ranges)
  where
    sorted_lem :
        (xs : List DateRange)
        → All IsRange xs
        → IsAscending xs
        → (merged : List DateRange) × (merge_sorted xs ≡ ok merged)
          × All IsRange merged
          × IsAscending merged
          × ((day : ℕ) → covered day merged ≡ covered day xs)
    sorted_lem [] h a = ([], refl, tt, tt, λ day. refl)
    sorted_lem (x ∷ xs) h a =
        let (merged, e, g) = merge_from_lem x xs h.0 h.1 a.0 a.1 in
        (merged, e, g.ranges, g.ascending, g.days)
