-- ===== src/Merging/Precedence.antt =====
-- By what precedence `reconcile` of backend/data/reconciliation.py chooses the value of a field.
use option_research_platform.Base.{
  ◌≡◌, ◌⊎◌, inl, inr, refl, ◌∙◌, Bool, true, false, String, none, some, List, [], ◌∷◌, map,
  if◌then◌else◌, leb, All, All-weaken, Among, arith, Bool-cases,
}
use option_research_platform.Base.Sort.{
  sorted, IsSorted, sorted-IsSorted, All-of-sorted, Among-of-sorted,
}
use option_research_platform.Base.Dict.{get, string_eq, get-nil}
use option_research_platform.Merging.Observations.{
  Values, ContractIdentity, MergeAction, select_provider, preserve_multiple, composite, reject,
  quarantine, manual_review, several,
}
use option_research_platform.Merging.Preview.{
  Observation, Policy, Merged, rank, precedence, by_name, merge_items, merge_all, reconcile,
  any_critical, divergences_of,
}
use option_research_platform.Merging.Fields.{
  is_without, Kept, merge_items-keeps, merge_items-enters,
}

-- A merge that went through.
abbrev pub is_merged : MergeAction → Bool
is_merged select_provider = true
is_merged composite = true
is_merged preserve_multiple = false
is_merged reject = false
is_merged quarantine = false
is_merged manual_review = false

merged_action : (b : Bool) → is_merged (if b then composite else select_provider) ≡ true
merged_action true = refl
merged_action false = refl

module _ (values : Values) where
  open values use {V, F}

  -- An observation that has nothing to say of a field: it is stale, or has no value for it.
  abbrev pub IsSilent : String → Observation values → Type 0
  IsSilent name p = (p.stale ≡ true) ⊎ All (λ e. is_without values name e ≡ true) p.fields

  -- The field's value and its provider are those of an observation that is not stale, and no other
  -- that has a value of the field ranks before it.
  pub record IsChosenFrom (policy : Policy values) (name : String) (value : V) (provider : String)
      (all : List (Observation values)) (o : Observation values) : Type 0 where
    pub given : Among o all
    pub fresh : o.stale ≡ false
    pub value_of : Among (name, some value) o.fields
    pub provider_of : provider ≡ o.provider
    pub first :
        All (λ p. IsSilent name p ⊎ (leb (rank values policy o) (rank values policy p) ≡ true)) all

  -- What the merge of a list of observations, in their order, makes of a field without a value.
  abbrev pub Found : Policy values → String → List (Observation values) → Merged values → Type 0
  Found policy name os m =
      ((get name m.0 ≡ none) × All (IsSilent name) os)
      ⊎ ((v : V) × (provider : String) × (o : Observation values) × (get name m.0 ≡ some v)
          × (get name m.1 ≡ some provider)
          × IsChosenFrom policy name v provider os o)

  -- An observation enters a field without a value.
  step : Observation values → Merged values → Merged values
  step o m =
      if o.stale then m else merge_items values o.provider (sorted (by_name values) o.fields) m

  step-enters :
      (o : Observation values) (name : String) (m : Merged values)
      → get name m.0 ≡ none
      → ((get name (step o m).0 ≡ none) × IsSilent name o)
        ⊎ ((v : V) × (get name (step o m).0 ≡ some v)
            × (get name (step o m).1 ≡ some o.provider)
            × (o.stale ≡ false)
            × Among (name, some v) o.fields)
  unfolding step
  step-enters o name m h = elim (Bool-cases o.stale) [
    | inl stale ↦ rw stale (inl (h, inl refl))
    | inr fresh ↦
        rw fresh
          (elim (merge_items-enters values o.provider name (sorted (by_name values) o.fields) m h) [
            | inl (e, rest) ↦ inl (
              e,
              inr (
                  All-of-sorted (by_name values) (λ e. is_without values name e ≡ true) o.fields
                    rest),
            )
            | inr (v, e, f, among) ↦
                inr (v, e, f, refl, Among-of-sorted (by_name values) (name, some v) o.fields among)
          ])
  ]

  step-keeps :
      (o : Observation values) (name : String) (w : V) (m : Merged values)
      → get name m.0 ≡ some w
      → Kept values name m (step o m)
  unfolding step
  step-keeps o name w m h = elim (Bool-cases o.stale) [
    | inl stale ↦ rw stale (refl, refl)
    | inr fresh ↦
        rw fresh (merge_items-keeps values o.provider name (sorted (by_name values) o.fields) w m h)
  ]

  merge_all-keeps :
      (os : List (Observation values)) (name : String) (w : V) (m : Merged values)
      → get name m.0 ≡ some w
      → Kept values name m (merge_all values os m)
  unfolding merge_all step
  merge_all-keeps [] name w m h = (refl, refl)
  merge_all-keeps (o ∷ os) name w m h =
      let (f, p) = step-keeps o name w m h in
      let (g, q) = merge_all-keeps os name w (step o m) (f ∙ h) in (g ∙ f, q ∙ p)

  first_of_sorted :
      (policy : Policy values) (o p : Observation values)
      → (precedence values policy).le o p ≡ true
      → leb (rank values policy o) (rank values policy p) ≡ true
  first_of_sorted policy o p h = ground arith

  merge_all-finds :
      (policy : Policy values) (os : List (Observation values)) (name : String) (m : Merged values)
      → IsSorted (precedence values policy) os
      → get name m.0 ≡ none
      → Found policy name os (merge_all values os m)
  unfolding merge_all step
  merge_all-finds policy [] name m s h = inl (h, tt)
  merge_all-finds policy (o ∷ os) name m s h = elim (step-enters o name m h) [
    | inl (still, silent) ↦ elim (merge_all-finds policy os name (step o m) s.1 still) [
      | inl (e, rest) ↦ inl (e, (silent, rest))
      | inr (v, provider, p, e, f, c) ↦ inr (
        v,
        provider,
        p,
        e,
        f,
        record {
          given = inr c.given;
          fresh = c.fresh;
          value_of = c.value_of;
          provider_of = c.provider_of;
          first = (inl silent, c.first);
        },
      )
    ]
    | inr (v, e, f, fresh, among) ↦
        let (g, q) = merge_all-keeps os name v (step o m) e in
        inr (
          v,
          o.provider,
          o,
          g ∙ e,
          q ∙ f,
          record {
            given = inl refl;
            fresh = fresh;
            value_of = among;
            provider_of = refl;
            first = (
              inr (ground arith),
              All-weaken _ _ os (λ p le. inr (first_of_sorted policy o p le)) s.0,
            );
          },
        )
  ]

  Found-of_sorted :
      (policy : Policy values) (name : String) (os : List (Observation values)) (m : Merged values)
      → Found policy name (sorted (precedence values policy) os) m
      → Found policy name os m
  Found-of_sorted policy name os m (inl (e, silent)) =
      inl (e, All-of-sorted (precedence values policy) (IsSilent name) os silent)
  Found-of_sorted policy name os m (inr (v, provider, o, e, f, c)) = inr (
    v,
    provider,
    o,
    e,
    f,
    record {
      given = Among-of-sorted (precedence values policy) o os c.given;
      fresh = c.fresh;
      value_of = c.value_of;
      provider_of = c.provider_of;
      first = All-of-sorted (precedence values policy) _ os c.first;
    },
  )

  module _ (checksum : ContractIdentity F → String) where
    -- Of observations of one contract, of which no two conflict on a critical field beyond its tolerance,
    -- the merge goes through. A field then has no value where every observation is stale or has none for
    -- it; otherwise its value and its provider are those of an observation that is not stale, and that
    -- no other one that is not stale and has a value of the field precedes in the policy's ranks.
    pub reconcile-follows_precedence :
        (policy : Policy values) (o : Observation values) (os : List (Observation values))
        (name : String)
        → several (map (λ item. checksum item.identity) (o ∷ os)) ≡ false
        → any_critical values
            (divergences_of values policy (sorted (precedence values policy) (o ∷ os)))
          ≡ false
        → let e = reconcile values checksum (o ∷ os) policy in
          (is_merged e.action ≡ true)
          × Found policy name (o ∷ os) (e.canonical_fields, e.field_provenance)
    unfolding reconcile
    reconcile-follows_precedence policy o os name h k =
        let ordered = sorted (precedence values policy) (o ∷ os) in
        let found = Found-of_sorted policy name (o ∷ os) (merge_all values ordered ([], [])) (
          merge_all-finds policy ordered name ([], [])
            (sorted-IsSorted (precedence values policy) (o ∷ os)) (get-nil name)) in
        rw (h, k)
          (merged_action (several (map (λ e. e.1) (merge_all values ordered ([], [])).1)), found)
