-- ===== src/Pareto/Tests.antt =====
-- Fronts of three evaluations, and the theorems at them.
use option_research_platform.Base.{◌≡◌, refl, true, String, List, [], ◌∷◌, some, All, Among, map}
use option_research_platform.Base.Int.{ℤ, pos}
use option_research_platform.Base.Sort.{IsSorted}
use option_research_platform.Pareto.{
  ObjectiveDefinition, maximize, minimize, succeeded, failed, CandidateEvaluation, dominates,
  metric, extract_front, non_failed, stable_key,
}
use option_research_platform.Pareto.Division.{Divides, extract_front-Divides}
use option_research_platform.Pareto.Coverage.{extract_front-covers}

abbrev evaluation : String → List (String × ℤ) → CandidateEvaluation String
evaluation name metrics = record {
  candidate_id = name;
  objective_metrics = metrics;
  status = succeeded;
  score = some (pos 1);
  dominated_by = [];
  details = name;
}

abbrev by_return_and_risk : List ObjectiveDefinition
by_return_and_risk =
    record { metric_key = "return"; direction = maximize }
    ∷ record { metric_key = "risk"; direction = minimize }
    ∷ []

-- The third is no better than the first; the fourth failed.
abbrev measured : List (CandidateEvaluation String)
measured =
    evaluation "b" (("return", pos 8) ∷ ("risk", pos 3) ∷ [])
    ∷ evaluation "a" (("return", pos 5) ∷ ("risk", pos 1) ∷ [])
    ∷ evaluation "c" (("return", pos 8) ∷ ("risk", pos 4) ∷ [])
    ∷ record (evaluation "d" (("return", pos 9) ∷ ("risk", pos 0) ∷ [])) { status = failed }
    ∷ []

measured_front :
    map (λ e. e.candidate_id) (extract_front measured by_return_and_risk).front ≡ "a" ∷ "b" ∷ []
unfolding extract_front
measured_front = refl

measured_dominated :
    map (λ e. e.dominated_by) (extract_front measured by_return_and_risk).dominated
    ≡ ("b" ∷ []) ∷ []
unfolding extract_front
measured_dominated = refl

abbrev three : List ObjectiveDefinition
three =
    record { metric_key = "x"; direction = maximize }
    ∷ record { metric_key = "y"; direction = maximize }
    ∷ record { metric_key = "z"; direction = maximize }
    ∷ []

-- Each lacks a metric: the second dominates the first, the third the second, and the first the third.
abbrev incomplete : List (CandidateEvaluation String)
incomplete =
    evaluation "a" (("x", pos 1) ∷ ("y", pos 0) ∷ [])
    ∷ evaluation "b" (("y", pos 1) ∷ ("z", pos 0) ∷ [])
    ∷ evaluation "c" (("z", pos 1) ∷ ("x", pos 0) ∷ [])
    ∷ []

nothing_on_front : (extract_front incomplete three).front ≡ []
unfolding extract_front
nothing_on_front = refl

extract_front-Divides_example :
    let r = extract_front measured by_return_and_risk in
    Divides by_return_and_risk (non_failed measured) (non_failed measured) r
    × IsSorted stable_key r.front
    × IsSorted stable_key r.dominated
extract_front-Divides_example = extract_front-Divides measured by_return_and_risk

extract_front-covers_example :
    All
      (λ d.
        (f : CandidateEvaluation String) × Among f (extract_front measured by_return_and_risk).front
        × (dominates by_return_and_risk f d ≡ true))
      (extract_front measured by_return_and_risk).dominated
unfolding metric
extract_front-covers_example =
    extract_front-covers measured by_return_and_risk
      ((refl, (refl, tt)), ((refl, (refl, tt)), ((refl, (refl, tt)), tt)))
