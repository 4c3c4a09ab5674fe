-- ===== src/Updates/Tests.antt =====
-- Requests and cached ranges, and the theorems at them.
use option_research_platform.Base.{ℕ, ◌≡◌, refl, List, [], ◌∷◌}
use option_research_platform.Base.Result.{ok}
use option_research_platform.Updates.{DateRange, plan_update}

abbrev range : ℕ → ℕ → DateRange
range a b = record { start = a; end = b }

abbrev request : DateRange
request = range 10 30

-- Two touch, and two are outside the request.
abbrev stored : List DateRange
stored = range 15 18 ∷ range 19 21 ∷ range 1 5 ∷ range 28 40 ∷ range 12 13 ∷ range 50 60 ∷ []

stored_plan :
    plan_update request stored
    ≡ ok (record {
      requested = request;
      cached = range 12 13 ∷ range 15 21 ∷ range 28 40 ∷ [];
      missing = range 10 11 ∷ range 14 14 ∷ range 22 27 ∷ [];
    })
unfolding plan_update
stored_plan = refl
