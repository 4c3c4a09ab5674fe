-- ===== src/ParameterSpace/Wanted.antt =====
-- Which combinations the loop of `generate_exhaustive` (backend/optimization/parameter_space.py) takes.
use option_research_platform.Base.{
  ◌≡◌, ◌↔◌, refl, ap, ◌∙◌, inl, inr, Bool, true, false, not, String, List, [], ◌∷◌, map, All, ◌&&◌,
  arith, Bool-cases,
}
use option_research_platform.Base.Order.{by_key}
use option_research_platform.Base.Text.{text_order}
use option_research_platform.Base.Sort.{sorted, All-sorted}
use option_research_platform.Base.Dict.{get, string_eq}
use option_research_platform.Base.Result.{Result, ok, err, >>=-eq-ok, ok-injective}
use option_research_platform.ParameterSpace.{
  ParameterDefinition, Parameters, ParameterSpace, DependentParameterRule,
  ForbiddenParameterCombination, SpaceError, name_of, holds_between, passes_dependencies,
  has_values, is_forbidden, validate_parameter, validate_parameters, validate_parameter_space,
}
use option_research_platform.ParameterSpace.Expansion.{
  Given, domain_of, domains, passes_custom_rules, is_wanted,
}
use option_research_platform.ParameterSpace.Products.{Assigns}
use option_research_platform.ParameterSpace.Domains.{HasValue, domain_of-HasValue}

-- A value that it can take for each parameter, under its name, in order.
abbrev pub Assigned : List ParameterDefinition → Parameters → Type 0
Assigned [] [] = Unit
Assigned [] (e ∷ es) = ⊥
Assigned (p ∷ ps) [] = ⊥
Assigned (p ∷ ps) ((k, v) ∷ es) = (k ≡ name_of p) × HasValue p v × Assigned ps es

Assigned-iff :
    (ps : List ParameterDefinition) (combo : Parameters)
    → All (λ p. validate_parameter p ≡ ok tt) ps
    → Assigns (map (λ p. (name_of p, domain_of p)) ps) combo ↔ Assigned ps combo
Assigned-iff [] [] h = (λ a. a, λ a. a)
Assigned-iff [] (e ∷ es) h = (λ a. absurd a, λ a. absurd a)
Assigned-iff (p ∷ ps) [] h = (λ a. absurd a, λ a. absurd a)
Assigned-iff (p ∷ ps) ((k, v) ∷ es) h = (
  λ (same, m, rest). (same, (domain_of-HasValue p v h.0).0 m, (Assigned-iff ps es h.1).0 rest),
  λ (same, m, rest). (same, (domain_of-HasValue p v h.0).1 m, (Assigned-iff ps es h.1).1 rest),
)

validate_parameters_each :
    (ps : List ParameterDefinition)
    → validate_parameters ps ≡ ok tt
    → All (λ p. validate_parameter p ≡ ok tt) ps
validate_parameters_each [] h = tt
validate_parameters_each (p ∷ ps) h =
    let (u, e, rest) = >>=-eq-ok (validate_parameter p) (λ _. validate_parameters ps) h in
    (e, validate_parameters_each ps rest)

-- The assignments to the domains are those of values that the parameters can take.
pub Assigns-Assigned :
    (space : ParameterSpace) (combo : Parameters)
    → validate_parameter_space space ≡ ok tt
    → Assigns (domains space.parameters) combo
      ↔ Assigned (sorted (by_key name_of text_order) space.parameters) combo
Assigns-Assigned space combo h =
    Assigned-iff (sorted (by_key name_of text_order) space.parameters) combo (
      All-sorted (by_key name_of text_order) _ space.parameters
        (validate_parameters_each space.parameters (ground arith)))

abbrev pub is_true : Result SpaceError Bool → Bool
is_true (ok b) = b
is_true (err e) = false

module _ (given : Given) where
  -- Every dependency holds between two values that are there, no forbidden combination has its values,
  -- and every custom rule passes.
  pub record IsWanted (space : ParameterSpace) (ps : Parameters) : Type 0 where
    pub dependencies :
        All
          (λ rule.
            holds_between given.number_of_text rule.operator
              (get rule.left_parameter ps)
              (get rule.right_parameter ps)
            ≡ ok true)
          space.dependencies
    pub forbidden : All (λ rule. has_values rule.values ps ≡ false) space.forbidden_combinations
    pub custom : All (λ rule. given.passes_rule rule ps ≡ true) space.custom_rules

  dependencies_iff :
      (rules : List DependentParameterRule) (ps : Parameters)
      → (passes_dependencies given.number_of_text rules ps ≡ ok true)
        ↔ All
            (λ rule.
              holds_between given.number_of_text rule.operator
                (get rule.left_parameter ps)
                (get rule.right_parameter ps)
              ≡ ok true)
            rules
  unfolding passes_dependencies
  dependencies_iff [] ps = (λ h. tt, λ h. refl)
  dependencies_iff (rule ∷ rules) ps = (
    λ h.
        let (b, e, rest) =
          >>=-eq-ok
            (holds_between given.number_of_text rule.operator (get rule.left_parameter ps)
              (get rule.right_parameter ps))
            _ h in
        elim (Bool-cases b) [
          | inl holds ↦ (e ∙ ap ok holds, (dependencies_iff rules ps).0 (rw holds at rest))
          | inr fails ↦ absurd (not_passed (rw fails at rest))
        ],
    λ (e, rest). rw e ((dependencies_iff rules ps).1 rest),
  )
    where
      not_passed : ◌≡◌ {A = Result SpaceError Bool} (ok false) (ok true) → ⊥
      not_passed h = cc

  forbidden_iff :
      (rules : List ForbiddenParameterCombination) (ps : Parameters)
      → (is_forbidden rules ps ≡ false) ↔ All (λ rule. has_values rule.values ps ≡ false) rules
  forbidden_iff [] ps = (λ h. tt, λ h. refl)
  forbidden_iff (rule ∷ rules) ps = (
    λ h. (ground arith, (forbidden_iff rules ps).0 (ground arith)),
    λ (e, rest). ground (arith, (forbidden_iff rules ps).1 rest),
  )

  custom_iff :
      (rules : List String) (ps : Parameters)
      → (passes_custom_rules given rules ps ≡ true)
        ↔ All (λ rule. given.passes_rule rule ps ≡ true) rules
  custom_iff [] ps = (λ h. tt, λ h. refl)
  custom_iff (rule ∷ rules) ps = (
    λ h. (ground arith, (custom_iff rules ps).0 (ground arith)),
    λ (e, rest). ground (arith, (custom_iff rules ps).1 rest),
  )

  is_wanted_iff :
      (space : ParameterSpace) (ps : Parameters)
      → (is_wanted given space ps ≡ ok true) ↔ IsWanted space ps
  is_wanted_iff space ps = (
    λ h.
        let (b, e, rest) =
          >>=-eq-ok (passes_dependencies given.number_of_text space.dependencies ps) _ h in
        let all : (b
              && (not (is_forbidden space.forbidden_combinations ps)
                  && passes_custom_rules given space.custom_rules ps))
            ≡ true =
          ok-injective rest in
        record {
          dependencies = (dependencies_iff space.dependencies ps).0 (e ∙ ap ok (ground arith));
          forbidden = (forbidden_iff space.forbidden_combinations ps).0 (ground arith);
          custom = (custom_iff space.custom_rules ps).0 (ground arith);
        },
    λ w.
        rw
          (
            (dependencies_iff space.dependencies ps).1 w.dependencies,
            (forbidden_iff space.forbidden_combinations ps).1 w.forbidden,
            (custom_iff space.custom_rules ps).1 w.custom,
          )
          refl,
  )

  -- The combinations that the loop takes are those that are wanted.
  pub is_wanted-IsWanted :
      (space : ParameterSpace) (ps : Parameters)
      → (is_true (is_wanted given space ps) ≡ true) ↔ IsWanted space ps
  is_wanted-IsWanted space ps = (
    λ h. (is_wanted_iff space ps).0 (was_true (is_wanted given space ps) h),
    λ w. ap is_true ((is_wanted_iff space ps).1 w),
  )
    where
      was_true : (r : Result SpaceError Bool) → is_true r ≡ true → r ≡ ok true
      was_true (ok b) h = ap ok h
      was_true (err e) h = cc
