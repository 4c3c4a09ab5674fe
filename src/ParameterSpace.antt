-- ===== src/ParameterSpace.antt =====
-- The expansion of a parameter space into candidates, backend/optimization/parameter_space.py with the
-- records of backend/optimization/models.py. A float is an exact decimal;
-- the number that a text stands for and the custom rules are given. A
-- candidate's identifier is its number, which the source prints.
mod Expansion
mod Products
mod Domains
mod Wanted
mod Exhaustive
mod Tests
use text.Mathlib.Text.{◌==◌ as str_eq}
use option_research_platform.Base.{
  ℕ, zero, suc, ◌+◌, ◌/◌, Bool, true, false, not, String, Option, none, some, List, [], ◌∷◌, ◌++◌,
  map, if◌then◌else◌, ◌||◌, ◌&&◌, leb,
}
use option_research_platform.Base.Int.{ℤ, pos, pos_part, ◌+ℤ◌, ◌-ℤ◌, ltb_ℤ, leb_ℤ, eqb_ℤ}
use option_research_platform.Base.Value.{Amount, of_int, of_flag}
use option_research_platform.Base.Order.{Preorder}
use option_research_platform.Base.Sort.{sorted}
use option_research_platform.Base.Text.{text_in, text_order}
use option_research_platform.Base.Result.{Result, ok, err, ◌>>=◌}
use option_research_platform.Base.Dict.{get, remove, string_eq}

pub data ParameterValue : Type 0 where
  flag : Bool → ParameterValue
  int : ℤ → ParameterValue
  float : Amount → ParameterValue
  word : String → ParameterValue

pub data ParameterDefinition : Type 0 where
  integer_range : String → ℤ → ℤ → ℤ → ParameterDefinition
  float_range : String → Amount → Amount → Amount → ℕ → ParameterDefinition
  categorical : String → List String → ParameterDefinition
  boolean : String → ParameterDefinition
  ordered_discrete : String → List ParameterValue → ParameterDefinition

pub record ConditionalParameterRule : Type 0 where
  pub parameter : String
  pub depends_on : String
  pub allowed_values : List ParameterValue

pub record DependentParameterRule : Type 0 where
  pub left_parameter : String
  pub operator : String
  pub right_parameter : String

pub record ForbiddenParameterCombination : Type 0 where
  pub values : List (String × ParameterValue)
  pub reason : String

abbrev pub Parameters : Type 0
Parameters = List (String × ParameterValue)

pub record ParameterSpace : Type 0 where
  pub parameters : List ParameterDefinition
  pub conditionals : List ConditionalParameterRule
  pub dependencies : List DependentParameterRule
  pub forbidden_combinations : List ForbiddenParameterCombination
  pub custom_rules : List String
  pub max_candidates : Option ℤ

pub record Candidate : Type 0 where
  pub candidate_id : ℕ
  pub parameters : Parameters

-- OptimizationValidationError by its message, and the ValueError of `float` on a text.
pub data SpaceError : Type 0 where
  names_not_unique : SpaceError
  step_not_positive : String → SpaceError
  minimum_above_maximum : String → SpaceError
  no_choice : String → SpaceError
  not_a_number : SpaceError

abbrev pub name_of : ParameterDefinition → String
name_of (integer_range name lo hi step) = name
name_of (float_range name lo hi step precision) = name
name_of (categorical name choices) = name
name_of (boolean name) = name
name_of (ordered_discrete name values) = name

-- The number that is not a text.
abbrev pub number : ParameterValue → Option Amount
number (flag b) = some (of_int (of_flag b))
number (int n) = some (of_int n)
number (float a) = some a
number (word t) = none

abbrev pub same_number : Option Amount → Option Amount → Bool
same_number (some a) (some b) = eqb_ℤ a b
same_number (some a) none = false
same_number none b = false

-- `a == b`, which holds of numbers of different types.
abbrev pub same_value : ParameterValue → ParameterValue → Bool
same_value (word a) (word b) = str_eq a b
same_value a b = same_number (number a) (number b)

-- `a in values`
abbrev pub value_in : ParameterValue → List ParameterValue → Bool
value_in a [] = false
value_in a (b ∷ bs) = same_value a b || value_in a bs

abbrev pub range_from : ℕ → ℤ → ℤ → List ParameterValue
range_from zero start step = []
range_from (suc n) start step = int start ∷ range_from n (start +ℤ step) step

-- `range(lo, hi + 1, step)`, of a positive step
abbrev pub range : ℤ → ℤ → ℤ → List ParameterValue
range lo hi step =
    if ltb_ℤ hi lo then [] else range_from (pos_part (hi -ℤ lo) / pos_part step + 1) lo step

abbrev pub has_duplicate_name : List String → Bool
has_duplicate_name [] = false
has_duplicate_name (x ∷ xs) = text_in x xs || has_duplicate_name xs

abbrev pub is_empty_list : {A : Type 0} → List A → Bool
is_empty_list [] = true
is_empty_list (x ∷ xs) = false

-- One round of `_validate_parameter_space`.
abbrev pub validate_parameter : ParameterDefinition → Result SpaceError (Unit {0})
validate_parameter (integer_range name lo hi step) =
    if leb_ℤ step (pos 0)
    then err (step_not_positive name)
    else if ltb_ℤ hi lo
    then err (minimum_above_maximum name)
    else ok tt
validate_parameter (float_range name lo hi step precision) =
    if leb_ℤ step (pos 0)
    then err (step_not_positive name)
    else if ltb_ℤ hi lo
    then err (minimum_above_maximum name)
    else ok tt
validate_parameter (categorical name choices) =
    if is_empty_list choices then err (no_choice name) else ok tt
validate_parameter (boolean name) = ok tt
validate_parameter (ordered_discrete name values) =
    if is_empty_list values then err (no_choice name) else ok tt

abbrev pub validate_parameters : List ParameterDefinition → Result SpaceError (Unit {0})
validate_parameters [] = ok tt
validate_parameters (p ∷ ps) = validate_parameter p >>= λ _. validate_parameters ps

-- `_validate_parameter_space`
abbrev pub validate_parameter_space : ParameterSpace → Result SpaceError (Unit {0})
validate_parameter_space space =
    if has_duplicate_name (map name_of space.parameters)
    then err names_not_unique
    else validate_parameters space.parameters

-- Whether a value is there and allowed.
abbrev pub is_allowed : Option ParameterValue → List ParameterValue → Bool
is_allowed none values = false
is_allowed (some v) values = value_in v values

-- `_apply_conditionals`
abbrev pub apply_conditionals : List ConditionalParameterRule → Parameters → Parameters
apply_conditionals [] filtered = filtered
apply_conditionals (rule ∷ rules) filtered = apply_conditionals rules (
    if is_allowed (get rule.depends_on filtered) rule.allowed_values
    then filtered
    else remove rule.parameter filtered)

-- `all(params.get(key) == value for ...)`
abbrev pub has_values : List (String × ParameterValue) → Parameters → Bool
has_values [] params = true
has_values ((key, value) ∷ rest) params =
    elim (get key params) [ none ↦ false | some v ↦ same_value v value ] && has_values rest params

-- `_forbidden_reason(...) is not None`
abbrev pub is_forbidden : List ForbiddenParameterCombination → Parameters → Bool
is_forbidden [] params = false
is_forbidden (rule ∷ rules) params = has_values rule.values params || is_forbidden rules params

-- The operators on numbers; any other passes.
abbrev pub compare_numbers : String → Amount → Amount → Bool
compare_numbers operator a b =
    if str_eq operator "<"
    then ltb_ℤ a b
    else if str_eq operator "<="
    then leb_ℤ a b
    else if str_eq operator ">"
    then ltb_ℤ b a
    else if str_eq operator ">="
    then leb_ℤ b a
    else true

abbrev pub compares_numbers : String → Bool
compares_numbers operator = text_in operator ("<" ∷ "<=" ∷ ">" ∷ ">=" ∷ [])

module _ (number_of_text : String → Option Amount) where
  -- `float(value)`
  abbrev pub to_number : ParameterValue → Result SpaceError Amount
  to_number (word t) = elim (number_of_text t) [ none ↦ err not_a_number | some a ↦ ok a ]
  to_number (flag b) = ok (of_int (of_flag b))
  to_number (int n) = ok (of_int n)
  to_number (float a) = ok a

  -- One rule on two values.
  abbrev pub holds : String → ParameterValue → ParameterValue → Result SpaceError Bool
  holds operator left right =
      if compares_numbers operator
      then (to_number left >>= λ a. to_number right >>= λ b. ok (compare_numbers operator a b))
      else if str_eq operator "=="
      then ok (same_value left right)
      else ok true

  abbrev pub holds_between :
      String → Option ParameterValue → Option ParameterValue → Result SpaceError Bool
  holds_between operator (some left) (some right) = holds operator left right
  holds_between operator (some left) none = ok false
  holds_between operator none right = ok false

  -- `_passes_dependencies`
  unfoldable pub passes_dependencies :
      List DependentParameterRule → Parameters → Result SpaceError Bool
  passes_dependencies [] params = ok true
  passes_dependencies (rule ∷ rules) params =
      let rest = passes_dependencies rules params in
      holds_between rule.operator (get rule.left_parameter params) (get rule.right_parameter params)
      >>= λ b. if b then rest else ok false
