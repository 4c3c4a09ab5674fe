-- ===== src/Pareto.antt =====
-- The Pareto front of evaluated candidates, backend/optimization/pareto.py with the records of
-- backend/optimization/models.py. Metrics and scores are exact decimals (no NaN); what an evaluation
-- has beside the fields that the code reads is `details`, of any type, which it copies.
mod Dominance
mod Division
mod Coverage
mod Tests
use text.Mathlib.Text.{◌==◌ as str_eq}
use option_research_platform.Base.{
  Bool, true, false, not, String, List, [], ◌∷◌, map, Option, none, some, if◌then◌else◌, ◌&&◌, ◌||◌,
  select,
}
use option_research_platform.Base.Int.{ℤ, leb_ℤ, ltb_ℤ}
use option_research_platform.Base.Order.{Preorder, by_key, lexical}
use option_research_platform.Base.Text.{text_order}
use option_research_platform.Base.Sort.{sorted}
use option_research_platform.Pareto.Scores.{score_order}
pub mod Scores

pub data ObjectiveDirection : Type 0 where
  maximize : ObjectiveDirection
  minimize : ObjectiveDirection

pub data CandidateStatus : Type 0 where
  succeeded : CandidateStatus
  failed : CandidateStatus
  rejected : CandidateStatus

-- Of an ObjectiveDefinition, what the front reads.
pub record ObjectiveDefinition : Type 0 where
  pub metric_key : String
  pub direction : ObjectiveDirection

pub record CandidateEvaluation (D : Type 0) : Type 0 where
  pub candidate_id : String
  pub objective_metrics : List (String × ℤ)
  pub status : CandidateStatus
  pub score : Option ℤ
  pub dominated_by : List String
  pub details : D

pub record ParetoFrontResult (D : Type 0) : Type 0 where
  pub front : List (CandidateEvaluation D)
  pub dominated : List (CandidateEvaluation D)

-- `metrics.get(key)`
pub metric : String → List (String × ℤ) → Option ℤ
metric key [] = none
metric key ((k, v) ∷ rest) = if str_eq k key then some v else metric key rest

-- `item.status == "succeeded"`
abbrev pub is_succeeded : CandidateStatus → Bool
is_succeeded succeeded = true
is_succeeded failed = false
is_succeeded rejected = false

-- Whether one value is worse than another in a direction.
abbrev pub worse : ObjectiveDirection → ℤ → ℤ → Bool
worse maximize left right = ltb_ℤ left right
worse minimize left right = ltb_ℤ right left

-- One round of the loop of `_dominates`: an objective that either lacks is skipped, a worse value
-- leaves the loop.
abbrev pub compare_values : ObjectiveDirection → Option ℤ → Option ℤ → Bool → (Bool → Bool) → Bool
compare_values direction none right strictly later = later strictly
compare_values direction (some a) none strictly later = later strictly
compare_values direction (some a) (some b) strictly later =
    if worse direction a b then false else later (strictly || worse direction b a)

-- The loop of `_dominates`, from `strictly_better` so far, over the metrics of both.
unfoldable pub dominates_from :
    Bool → List ObjectiveDefinition → List (String × ℤ) → List (String × ℤ) → Bool
unfolding metric
dominates_from strictly [] left right = strictly
dominates_from strictly (o ∷ rest) left right =
    compare_values o.direction (metric o.metric_key left) (metric o.metric_key right) strictly
      (λ s. dominates_from s rest left right)

module _ {D : Type 0} where
  -- `_dominates`
  abbrev pub dominates :
      List ObjectiveDefinition → CandidateEvaluation D → CandidateEvaluation D → Bool
  dominates objectives left right =
      dominates_from false objectives left.objective_metrics right.objective_metrics

  -- `_stable_key`
  abbrev pub stable_key : Preorder (CandidateEvaluation D)
  stable_key = lexical (by_key (λ e. e.score) score_order) (by_key (λ e. e.candidate_id) text_order)

  -- The dominators of a candidate.
  abbrev pub dominators :
      List ObjectiveDefinition
      → List (CandidateEvaluation D)
      → CandidateEvaluation D
      → List (CandidateEvaluation D)
  dominators objectives non_failed candidate =
      select
        (λ other.
          not (str_eq other.candidate_id candidate.candidate_id)
          && dominates objectives other candidate)
        non_failed

  -- The lists of one round of the loop, before those of the later rounds.
  abbrev pub divide_one :
      CandidateEvaluation D
      → List (CandidateEvaluation D)
      → ParetoFrontResult D
      → ParetoFrontResult D
  divide_one candidate [] later = record later { front = candidate ∷ later.front }
  divide_one candidate (d ∷ ds) later = record later {
    dominated =
        record candidate {
          dominated_by = sorted text_order (map (λ item. item.candidate_id) (d ∷ ds));
        }
        ∷ later.dominated;
  }

  unfoldable pub divide :
      List ObjectiveDefinition
      → List (CandidateEvaluation D)
      → List (CandidateEvaluation D)
      → ParetoFrontResult D
  unfolding dominates_from
  divide objectives non_failed [] = record { front = []; dominated = [] }
  divide objectives non_failed (candidate ∷ rest) =
      divide_one candidate (dominators objectives non_failed candidate)
        (divide objectives non_failed rest)

  abbrev pub non_failed : List (CandidateEvaluation D) → List (CandidateEvaluation D)
  non_failed evaluations = select (λ item. is_succeeded item.status) evaluations

  -- `extract_front`
  unfoldable pub extract_front :
      List (CandidateEvaluation D) → List ObjectiveDefinition → ParetoFrontResult D
  unfolding divide
  extract_front evaluations objectives =
      let divided = divide objectives (non_failed evaluations) (non_failed evaluations) in
      record {
        front = sorted stable_key divided.front;
        dominated = sorted stable_key divided.dominated;
      }
