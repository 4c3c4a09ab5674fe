-- ===== src/Merging/Fields.antt =====
-- What the fields of one observation add to a merge.
use text.Mathlib.Text.{◌==◌ as str_eq}
use option_research_platform.Base.{
  ◌≡◌, ◌⊎◌, inl, inr, refl, ap, sym, ◌∙◌, Bool, true, false, not, String, Option, none, some, List,
  [], ◌∷◌, All, Among, arith, eq_iff, Bool-cases, Option-cases,
}
use option_research_platform.Base.Dict.{get, put, string_eq, get-put}
use option_research_platform.Merging.Observations.{Values}
use option_research_platform.Merging.Preview.{Merged, merge_new, merge_items}

module _ (values : Values) where
  open values use {V}

  -- A pair that gives the field no value.
  abbrev pub is_without : String → String × Option V → Bool
  is_without name (k, none) = true
  is_without name (k, some v) = not (str_eq k name)

  -- What a field has after the fields of an observation went in, where it had nothing before.
  abbrev pub Entered : String → String → List (String × Option V) → Merged values → Type 0
  Entered name provider items m =
      ((get name m.0 ≡ none) × All (λ e. is_without name e ≡ true) items)
      ⊎ ((v : V) × (get name m.0 ≡ some v)
          × (get name m.1 ≡ some provider)
          × Among (name, some v) items)

  -- A field that has a value keeps it and its provider.
  abbrev pub Kept : String → Merged values → Merged values → Type 0
  Kept name m n = (get name n.0 ≡ get name m.0) × (get name n.1 ≡ get name m.1)

  -- As does one that is not the field of the pair.
  merge_new-leaves :
      (provider name k : String) (v : V) (m : Merged values)
      → str_eq k name ≡ false
      → Kept name m (merge_new values provider k v m (get k m.0))
  merge_new-leaves provider name k v m h = elim (Option-cases (get k m.0)) [
    | inl new ↦
        rw new
          (ground (arith, get-put name k v m.0, h), ground (arith, get-put name k provider m.1, h))
    | inr (old, e) ↦ rw e (refl, refl)
  ]

  merge_new-keeps :
      (provider name k : String) (v w : V) (m : Merged values)
      → get name m.0 ≡ some w
      → Kept name m (merge_new values provider k v m (get k m.0))
  merge_new-keeps provider name k v w m h = elim (Bool-cases (str_eq k name)) [
    | inl same ↦
        let at : get k m.0 ≡ some w = ap (λ j. get j m.0) ((eq_iff k name).0 same) ∙ h in
        rw at (refl, refl)
    | inr other ↦ merge_new-leaves provider name k v m other
  ]

  pub merge_items-keeps :
      (provider name : String) (items : List (String × Option V)) (w : V) (m : Merged values)
      → get name m.0 ≡ some w
      → Kept name m (merge_items values provider items m)
  unfolding merge_items
  merge_items-keeps provider name [] w m h = (refl, refl)
  merge_items-keeps provider name ((k, none) ∷ items) w m h =
      merge_items-keeps provider name items w m h
  merge_items-keeps provider name ((k, some v) ∷ items) w m h =
      let (f, p) = merge_new-keeps provider name k v w m h in
      let next = merge_new values provider k v m (get k m.0) in
      let (g, q) = merge_items-keeps provider name items w next (f ∙ h) in (g ∙ f, q ∙ p)

  pub merge_items-enters :
      (provider name : String) (items : List (String × Option V)) (m : Merged values)
      → get name m.0 ≡ none
      → Entered name provider items (merge_items values provider items m)
  unfolding merge_items
  merge_items-enters provider name [] m h = inl (h, tt)
  merge_items-enters provider name ((k, none) ∷ items) m h =
      elim (merge_items-enters provider name items m h) [
        | inl (e, rest) ↦ inl (e, (refl, rest))
        | inr (v, e, f, among) ↦ inr (v, e, f, inr among)
      ]
  merge_items-enters provider name ((k, some v) ∷ items) m h = elim (Bool-cases (str_eq k name)) [
    | inl same ↦
        let e : k ≡ name = (eq_iff k name).0 same in
        let next : Merged values = (put k v m.0, put k provider m.1) in
        let there : get name next.0 ≡ some v = ground (arith, get-put name k v m.0, same) in
        let by : get name next.1 ≡ some provider =
          ground (arith, get-put name k provider m.1, same) in
        let (f, p) = merge_items-keeps provider name items v next there in
        rw (ap (λ j. get j m.0) e ∙ h, merge_items)
          (inr (v, f ∙ there, p ∙ by, inl (ap (λ j. (j, some v)) (sym e))))
    | inr other ↦
        let next = merge_new values provider k v m (get k m.0) in
        let kept = merge_new-leaves provider name k v m other in
        elim (merge_items-enters provider name items next (kept.0 ∙ h)) [
          | inl (e, rest) ↦ inl (e, (ap not other, rest))
          | inr (w, e, f, among) ↦ inr (w, e, f, inr among)
        ]
  ]
