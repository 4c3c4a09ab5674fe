-- ===== src/ParameterSpace/Expansion.antt =====
-- `ParameterSpaceGenerator.generate_exhaustive` of backend/optimization/parameter_space.py.
use option_research_platform.Base.{
  ℕ, zero, suc, ◌+◌, ◌-◌, ◌*◌, ◌/◌, ◌%◌, ltb, if◌then◌else◌, Bool, true, false, not, String, Option,
  none, some, List, [], ◌∷◌, ◌++◌, map, ◌&&◌,
}
use option_research_platform.Base.Int.{ℤ, pos, negsuc, pos_part, neg, leb_ℤ, ◌+ℤ◌, ◌-ℤ◌}
use option_research_platform.Base.Value.{Amount}
use option_research_platform.Base.Sort.{sorted}
use option_research_platform.Base.Order.{by_key}
use option_research_platform.Base.Text.{text_order}
use option_research_platform.Base.Result.{Result, ok, ◌>>=◌}
use option_research_platform.ParameterSpace.{
  ParameterValue, flag, word, float, ParameterDefinition, integer_range, float_range, categorical,
  boolean, ordered_discrete, Parameters, ParameterSpace, Candidate, SpaceError, name_of, range,
  validate_parameter_space, apply_conditionals, is_forbidden, passes_dependencies,
}

-- A value before each assignment of the rest.
abbrev pub with_value : String → ParameterValue → List Parameters → List Parameters
with_value key value [] = []
with_value key value (rest ∷ more) = ((key, value) ∷ rest) ∷ with_value key value more

abbrev pub with_values : String → List ParameterValue → List Parameters → List Parameters
with_values key [] rest = []
with_values key (value ∷ values) rest = with_value key value rest ++ with_values key values rest

-- `product(*domains)`, each combination with its keys; the last key changes fastest.
unfoldable pub product : List (String × List ParameterValue) → List Parameters
product [] = [] ∷ []
product ((key, domain) ∷ rest) = with_values key domain (product rest)

-- What the program is given: the numbers of texts, and the custom rules.
pub record Given : Type 0 where
  pub number_of_text : String → Option Amount
  pub passes_rule : String → Parameters → Bool

-- `round(n / d)`: to the nearest, and of two to the even one.
unfoldable pub round_half_even : ℕ → ℕ → ℕ
round_half_even n d =
    let below = n / d in
    let rest = n % d in
    if ltb (2 * rest) d then below else if ltb d (2 * rest) then below + 1 else below + below % 2

abbrev pub tens : ℕ → ℕ
tens zero = 1
tens (suc n) = 10 * tens n

-- `round(x, precision)` of an amount, which has eight places.
unfoldable pub round_to : ℕ → Amount → Amount
unfolding round_half_even
round_to precision (pos n) = pos (round_half_even n (tens (8 - precision)) * tens (8 - precision))
round_to precision (negsuc n) =
    neg (pos (round_half_even (suc n) (tens (8 - precision)) * tens (8 - precision)))

-- `int(round((maximum - minimum) / step))`, of a positive step and a range that is not empty
abbrev pub steps_of : Amount → Amount → Amount → ℕ
steps_of minimum maximum step = round_half_even (pos_part (maximum -ℤ minimum)) (pos_part step)

-- `[round(minimum + i * step, precision) for i in range(count)]`, from `minimum + i * step`
unfoldable pub float_from : ℕ → ℕ → Amount → Amount → List ParameterValue
float_from zero precision start step = []
float_from (suc n) precision start step =
    float (round_to precision start) ∷ float_from n precision (start +ℤ step) step

-- `len(generated) >= max_candidates`
abbrev pub is_full : Option ℤ → ℕ → Bool
is_full none taken = false
is_full (some limit) taken = leb_ℤ limit (pos taken)

-- `generated.append(candidate)`, and the break where the list is full.
abbrev pub with_candidate :
    Bool → Candidate → Result SpaceError (List Candidate) → Result SpaceError (List Candidate)
with_candidate true candidate later = ok (candidate ∷ [])
with_candidate false candidate later = later >>= λ candidates. ok (candidate ∷ candidates)

-- `_domain_for_param`
unfoldable pub domain_of : ParameterDefinition → List ParameterValue
unfolding round_half_even float_from
domain_of (integer_range name lo hi step) = range lo hi step
domain_of (float_range name lo hi step precision) =
    float_from (steps_of lo hi step + 1) precision lo step
domain_of (categorical name choices) = map word choices
domain_of (boolean name) = flag false ∷ flag true ∷ []
domain_of (ordered_discrete name values) = values

-- The keys in order, with their domains.
abbrev pub domains : List ParameterDefinition → List (String × List ParameterValue)
domains parameters =
    map (λ p. (name_of p, domain_of p)) (sorted (by_key name_of text_order) parameters)

module _ (given : Given) where
  -- `_passes_custom_rules`
  abbrev pub passes_custom_rules : List String → Parameters → Bool
  passes_custom_rules [] params = true
  passes_custom_rules (rule ∷ rules) params =
      given.passes_rule rule params && passes_custom_rules rules params

  -- The tests of one combination, in the order of the loop.
  abbrev pub is_wanted : ParameterSpace → Parameters → Result SpaceError Bool
  is_wanted space filtered =
      passes_dependencies given.number_of_text space.dependencies filtered >>= λ passes. ok (
        passes
        && (not (is_forbidden space.forbidden_combinations filtered)
            && passes_custom_rules space.custom_rules filtered))

  -- The loop, from the number of the combination and of those taken.
  unfoldable pub generate_from :
      ParameterSpace → ℕ → ℕ → List Parameters → Result SpaceError (List Candidate)
  unfolding passes_dependencies
  generate_from space index taken [] = ok []
  generate_from space index taken (combo ∷ combos) =
      let filtered = apply_conditionals space.conditionals combo in
      let candidate : Candidate = record { candidate_id = index; parameters = filtered } in
      is_wanted space filtered >>= λ wanted. elim wanted [
        | false ↦ generate_from space (index + 1) taken combos
        | true ↦
            with_candidate (is_full space.max_candidates (taken + 1)) candidate
              (generate_from space (index + 1) (taken + 1) combos)
      ]

  -- `generate_exhaustive`
  unfoldable pub generate_exhaustive : ParameterSpace → Result SpaceError (List Candidate)
  unfolding generate_from product
  generate_exhaustive space = validate_parameter_space space >>= λ _.
      generate_from space 1 0 (product (domains space.parameters))
