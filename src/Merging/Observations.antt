-- ===== src/Merging/Observations.antt =====
-- What backend/data/reconciliation.py reads and returns: observations, policies, divergences, previews.
use text.Mathlib.Text.{◌==◌ as str_eq}
use option_research_platform.Base.{
  ℕ, zero, suc, Bool, true, false, not, String, Option, List, [], ◌∷◌, if◌then◌else◌, ◌||◌,
}
use option_research_platform.Base.Dict.{string_eq}

pub data DivergenceSeverity : Type 0 where
  informational : DivergenceSeverity
  minor : DivergenceSeverity
  moderate : DivergenceSeverity
  major : DivergenceSeverity
  critical : DivergenceSeverity
  incomparable : DivergenceSeverity

pub data MergeAction : Type 0 where
  select_provider : MergeAction
  preserve_multiple : MergeAction
  composite : MergeAction
  reject : MergeAction
  quarantine : MergeAction
  manual_review : MergeAction

-- Python's values other than None, and its floats.
pub record Values : Type 1 where
  pub V : Type 0
  pub F : Type 0
  pub equal : V → V → Bool
  pub number : V → Option F
  pub minus : F → F → F
  pub magnitude : F → F
  pub larger : F → F → F
  pub ratio : F → F → F
  pub at_most : F → F → Bool
  pub nothing : F
  pub tiny : F

pub record ContractIdentity (F : Type 0) : Type 0 where
  pub underlying : String
  pub expiration : String
  pub strike : F
  pub option_type : String
  pub multiplier : F
  pub exercise_style : Option String
  pub settlement_style : Option String
  pub occ_symbol : Option String
  pub adjusted_deliverable : Option String

-- A field of None is `none`.
pub record ProviderObservation (V F : Type 0) : Type 0 where
  pub provider : String
  pub identity : ContractIdentity F
  pub timestamp : String
  pub fields : List (String × Option V)
  pub source_checksum : String
  pub certification_score : Option F
  pub stale : Bool

pub record Divergence (V F : Type 0) : Type 0 where
  pub field : String
  pub providers : String × String
  pub left : V
  pub right : V
  pub absolute_difference : Option F
  pub relative_difference : Option F
  pub severity : DivergenceSeverity
  pub reason : String

pub record ReconciliationPolicy (F : Type 0) : Type 0 where
  pub version : String
  pub provider_precedence : List String
  pub absolute_tolerances : List (String × F)
  pub relative_tolerances : List (String × F)
  pub critical_fields : List String

pub record MergePreview (V F : Type 0) : Type 0 where
  pub action : MergeAction
  pub canonical_fields : List (String × V)
  pub field_provenance : List (String × String)
  pub divergences : List (Divergence V F)
  pub policy_version : String
  pub observations : List (ProviderObservation V F)
  pub explanation : List String

-- `names.index(name)`, or the length where it is missing: `_rank`.
abbrev pub index_of : String → List String → ℕ
index_of name [] = zero
index_of name (n ∷ names) = if str_eq n name then zero else suc (index_of name names)

-- `len(set(names)) > 1`
abbrev pub differs_from : String → List String → Bool
differs_from name [] = false
differs_from name (n ∷ names) = not (str_eq name n) || differs_from name names

abbrev pub several : List String → Bool
several [] = false
several (n ∷ names) = differs_from n names

abbrev pub is_critical : DivergenceSeverity → Bool
is_critical critical = true
is_critical informational = false
is_critical minor = false
is_critical moderate = false
is_critical major = false
is_critical incomparable = false
