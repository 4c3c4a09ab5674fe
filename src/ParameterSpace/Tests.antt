-- ===== src/ParameterSpace/Tests.antt =====
-- The expansion of a small space, and the theorem at it.
use option_research_platform.Base.{ℕ, ◌≡◌, refl, true, false, some, none, List, [], ◌∷◌}
use option_research_platform.Base.Int.{pos, ◌-ℤ◌, ◌+ℤ◌, ◌*ℤ◌}
use option_research_platform.Base.Dict.{get, remove}
use option_research_platform.Base.Result.{ok, err}
use option_research_platform.ParameterSpace.{
  ParameterSpace, Parameters, Candidate, no_choice, integer_range, float_range, float, boolean,
  categorical, flag, int, passes_dependencies,
}
use option_research_platform.ParameterSpace.Expansion.{
  Given, generate_exhaustive, domain_of, round_to,
}

abbrev nothing_given : Given
nothing_given = record { number_of_text = λ t. none; passes_rule = λ name params. true }

-- The width is there only with hedging, and 2 is forbidden for it.
abbrev space : ParameterSpace
space = record {
  parameters = integer_range "width" (pos 1) (pos 3) (pos 1) ∷ boolean "hedged" ∷ [];
  conditionals =
      record { parameter = "width"; depends_on = "hedged"; allowed_values = flag true ∷ [] } ∷ [];
  dependencies = [];
  forbidden_combinations = record { values = ("width", int (pos 2)) ∷ []; reason = "odd" } ∷ [];
  custom_rules = "any" ∷ [];
  max_candidates = none;
}

abbrev candidate : ℕ → Parameters → Candidate
candidate number params = record { candidate_id = number; parameters = params }

-- Without hedging every width leaves the same parameters, and each is a candidate.
abbrev expanded : List Candidate
expanded =
    candidate 1 (("hedged", flag false) ∷ [])
    ∷ candidate 2 (("hedged", flag false) ∷ [])
    ∷ candidate 3 (("hedged", flag false) ∷ [])
    ∷ candidate 4 (("hedged", flag true) ∷ ("width", int (pos 1)) ∷ [])
    ∷ candidate 6 (("hedged", flag true) ∷ ("width", int (pos 3)) ∷ [])
    ∷ []

-- A limit of no candidates gives one.
limit_of_none :
    generate_exhaustive nothing_given (record space { max_candidates = some (pos 0) })
    ≡ ok (candidate 1 (("hedged", flag false) ∷ []) ∷ [])
unfolding generate_exhaustive get remove passes_dependencies ◌-ℤ◌ ◌+ℤ◌ ◌*ℤ◌ domain_of
limit_of_none = refl

empty_choice :
    generate_exhaustive nothing_given (record space { parameters = categorical "side" [] ∷ [] })
    ≡ err (no_choice "side")
unfolding generate_exhaustive
empty_choice = refl

-- From 0.10 to 0.35 in steps of 0.1 go two and a half steps, to the even two; one place is kept.
run-domain_of :
    domain_of (float_range "delta" (pos 10000000) (pos 35000000) (pos 10000000) 1)
    ≡ float (pos 10000000) ∷ float (pos 20000000) ∷ float (pos 30000000) ∷ []
unfolding domain_of round_to ◌-ℤ◌ ◌+ℤ◌
run-domain_of = refl
