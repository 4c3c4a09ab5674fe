-- ===== src/ParameterSpace/Exhaustive.antt =====
-- What `generate_exhaustive` (backend/optimization/parameter_space.py) generates.
use option_research_platform.Base.{Bool}
use option_research_platform.ParameterSpace.{Parameters, ParameterSpace, apply_conditionals}
use option_research_platform.ParameterSpace.Expansion.{Given, is_wanted}
use option_research_platform.ParameterSpace.Wanted.{is_true}

module _ (given : Given) (space : ParameterSpace) where
  -- The parameters of a combination after the conditional rules.
  abbrev pub filtered : Parameters → Parameters
  filtered combo = apply_conditionals space.conditionals combo

  -- A combination passes the dependencies, is not forbidden, and passes the custom rules.
  abbrev pub passes : Parameters → Bool
  passes combo = is_true (is_wanted given space (filtered combo))
