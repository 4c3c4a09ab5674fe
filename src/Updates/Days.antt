-- ===== src/Updates/Days.antt =====
-- The days of date ranges: how often a day is covered.
use option_research_platform.Base.{
  ℕ, ◌+◌, ◌≤◌, ◌≡◌, refl, Bool, false, List, [], ◌∷◌, ◌++◌, leb, if◌then◌else◌, ◌&&◌, ◌||◌, arith,
}
use option_research_platform.Base.Order.{Preorder}
use option_research_platform.Base.Sort.{sorted, insert_sorted}
use option_research_platform.Updates.{DateRange}

abbrev pub within : ℕ → DateRange → Bool
within day r = leb r.start day && leb day r.end

-- Whether some range has the day.
abbrev pub covered : ℕ → List DateRange → Bool
covered day [] = false
covered day (r ∷ rest) = within day r || covered day rest

-- How many ranges have the day.
abbrev pub times_covered : ℕ → List DateRange → ℕ
times_covered day [] = 0
times_covered day (r ∷ rest) = (if within day r then 1 else 0) + times_covered day rest

abbrev pub IsRange : DateRange → Type 0
IsRange r = r.start ≤ r.end

pub times_covered-append :
    (day : ℕ) (xs ys : List DateRange)
    → times_covered day (xs ++ ys) ≡ times_covered day xs + times_covered day ys
times_covered-append day [] ys = omega arith
times_covered-append day (x ∷ xs) ys = omega (arith, times_covered-append day xs ys)

covered-insert_sorted :
    (o : Preorder DateRange) (day : ℕ) (r : DateRange) (xs : List DateRange)
    → covered day (insert_sorted o r xs) ≡ (within day r || covered day xs)
covered-insert_sorted o day r [] = refl
covered-insert_sorted o day r (x ∷ xs) = ground (arith, covered-insert_sorted o day r xs)

pub covered-sorted :
    (o : Preorder DateRange) (day : ℕ) (xs : List DateRange)
    → covered day (sorted o xs) ≡ covered day xs
covered-sorted o day [] = refl
covered-sorted o day (x ∷ xs) =
    rw (covered-insert_sorted o day x (sorted o xs)) (rw (covered-sorted o day xs) refl)
