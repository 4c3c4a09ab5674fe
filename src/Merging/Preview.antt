-- ===== src/Merging/Preview.antt =====
-- `reconcile` of backend/data/reconciliation.py, with `_divergences` and `_rank`.
use option_research_platform.Base.{
  ℕ, Bool, false, not, String, Option, none, some, List, [], ◌∷◌, ◌++◌, map, if◌then◌else◌, ◌&&◌,
  ◌||◌, select,
}
use option_research_platform.Base.Order.{Preorder, by_key, lexical, nat_order, bool_order}
use option_research_platform.Base.Text.{text_order, text_in}
use option_research_platform.Base.Sort.{sorted}
use option_research_platform.Base.Dict.{get, put, string_eq}
use option_research_platform.Merging.Observations.{
  DivergenceSeverity, informational, moderate, critical, select_provider, composite, reject,
  quarantine, manual_review, Values, ContractIdentity, ProviderObservation, Divergence,
  ReconciliationPolicy, MergePreview, index_of, several, is_critical,
}

module _ (values : Values) where
  open values use {V, F, equal, number, minus, magnitude, larger, ratio, at_most, nothing, tiny}

  abbrev pub Observation : Type 0
  Observation = ProviderObservation V F

  abbrev pub Policy : Type 0
  Policy = ReconciliationPolicy F

  abbrev pub rank : Policy → Observation → ℕ
  rank policy item = index_of item.provider policy.provider_precedence

  -- The key of `sorted` in `reconcile`.
  abbrev pub precedence : Policy → Preorder Observation
  precedence policy = lexical (by_key (rank policy) nat_order) (
      lexical (by_key (λ item. item.stale) bool_order) (
        lexical (by_key (λ item. item.provider) text_order)
          (by_key (λ item. item.source_checksum) text_order)))

  -- `tolerances.get(name, 0.0)`
  abbrev pub tolerance : String → List (String × F) → F
  tolerance name tolerances = elim (get name tolerances) [ none ↦ nothing | some t ↦ t ]

  abbrev pub absolute_of : F → F → F
  absolute_of a b = magnitude (minus a b)

  abbrev pub relative_of : F → F → F
  relative_of a b = ratio (absolute_of a b) (larger (larger (magnitude a) (magnitude b)) tiny)

  -- The differences of two numbers, and whether the policy tolerates them.
  abbrev pub measure : Policy → String → Option F → Option F → Option F × Option F × Bool
  measure policy name (some a) (some b) = (
    some (absolute_of a b),
    some (relative_of a b),
    at_most (absolute_of a b) (tolerance name policy.absolute_tolerances)
        || at_most (relative_of a b) (tolerance name policy.relative_tolerances),
  )
  measure policy name (some a) none = (none, none, false)
  measure policy name none b = (none, none, false)

  abbrev pub severity_of : Policy → String → Bool → DivergenceSeverity
  severity_of policy name tolerated =
      if text_in name policy.critical_fields && not tolerated
      then critical
      else if tolerated
      then informational
      else moderate

  -- The divergence of two values of a field, where they differ.
  abbrev pub divergence :
      Policy
      → String
      → Observation
      → Observation
      → Option (Option V)
      → Option (Option V)
      → List (Divergence V F)
  divergence policy name a b (some (some first)) (some (some second)) =
      if equal first second
      then []
      else let (absolute, relative, tolerated) =
          measure policy name (number first) (number second) in
        record {
          field = name;
          providers = (a.provider, b.provider);
          left = first;
          right = second;
          absolute_difference = absolute;
          relative_difference = relative;
          severity = severity_of policy name tolerated;
          reason = if tolerated then "within tolerance" else "values conflict";
        }
        ∷ []
  divergence policy name a b (some (some first)) (some none) = []
  divergence policy name a b (some (some first)) none = []
  divergence policy name a b (some none) second = []
  divergence policy name a b none second = []

  abbrev pub compare_names :
      Policy → Observation → Observation → List String → List (Divergence V F)
  compare_names policy a b [] = []
  compare_names policy a b (name ∷ names) =
      divergence policy name a b (get name a.fields) (get name b.fields)
      ++ compare_names policy a b names

  -- `sorted(set(left.fields) & set(right.fields))`
  abbrev pub shared_names : Observation → Observation → List String
  shared_names a b =
      sorted text_order
        (select (λ name. text_in name (map (λ e. e.0) b.fields)) (map (λ e. e.0) a.fields))

  abbrev pub compare_rest : Policy → Observation → List Observation → List (Divergence V F)
  compare_rest policy a [] = []
  compare_rest policy a (b ∷ rest) =
      compare_names policy a b (shared_names a b) ++ compare_rest policy a rest

  -- `_divergences`
  unfoldable pub divergences_of : Policy → List Observation → List (Divergence V F)
  divergences_of policy [] = []
  divergences_of policy (a ∷ rest) = compare_rest policy a rest ++ divergences_of policy rest

  abbrev pub any_critical : List (Divergence V F) → Bool
  any_critical [] = false
  any_critical (d ∷ ds) = is_critical d.severity || any_critical ds

  -- `fields` and `provenance`
  abbrev pub Merged : Type 0
  Merged = List (String × V) × List (String × String)

  -- A value that is not None goes in where the field has none yet.
  abbrev pub merge_new : String → String → V → Merged → Option V → Merged
  merge_new provider name value m none = (put name value m.0, put name provider m.1)
  merge_new provider name value m (some old) = m

  unfoldable pub merge_items : String → List (String × Option V) → Merged → Merged
  merge_items provider [] m = m
  merge_items provider ((name, none) ∷ rest) m = merge_items provider rest m
  merge_items provider ((name, some value) ∷ rest) m =
      merge_items provider rest (merge_new provider name value m (get name m.0))

  -- The names of a dictionary are distinct, so that pairs are sorted by their names.
  abbrev pub by_name : Preorder (String × Option V)
  by_name = by_key (λ e. e.0) text_order

  unfoldable pub merge_all : List Observation → Merged → Merged
  merge_all [] m = m
  merge_all (item ∷ rest) m =
      merge_all rest
        (if item.stale then m else merge_items item.provider (sorted by_name item.fields) m)

  -- The preview once the contracts agree.
  abbrev pub preview : Policy → List Observation → List (Divergence V F) → Merged → MergePreview V F
  preview policy observations divergences merged =
      if any_critical divergences
      then record {
        action = quarantine;
        canonical_fields = [];
        field_provenance = [];
        divergences = divergences;
        policy_version = policy.version;
        observations = observations;
        explanation = "Critical contract-definition conflict" ∷ [];
      }
      else record {
        action = if several (map (λ e. e.1) merged.1) then composite else select_provider;
        canonical_fields = merged.0;
        field_provenance = merged.1;
        divergences = divergences;
        policy_version = policy.version;
        observations = observations;
        explanation = "Fields selected by versioned provider precedence and freshness" ∷ [];
      }

  module _ (checksum : ContractIdentity F → String) where
    -- `reconcile`
    unfoldable pub reconcile : List Observation → Policy → MergePreview V F
    reconcile [] policy = record {
      action = reject;
      canonical_fields = [];
      field_provenance = [];
      divergences = [];
      policy_version = policy.version;
      observations = [];
      explanation = "No observations" ∷ [];
    }
    reconcile (o ∷ os) policy =
        if several (map (λ item. checksum item.identity) (o ∷ os))
        then record {
          action = manual_review;
          canonical_fields = [];
          field_provenance = [];
          divergences = [];
          policy_version = policy.version;
          observations = o ∷ os;
          explanation = "Contract identity conflict" ∷ [];
        }
        else let ordered = sorted (precedence policy) (o ∷ os) in
          preview policy (o ∷ os) (divergences_of policy ordered) (merge_all ordered ([], []))
