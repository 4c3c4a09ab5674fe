-- ===== src/Base/Dict.antt =====
-- Python's dictionaries, as lists of keys with values in the order of insertion: a key that is set
-- again keeps its place.
use text.Mathlib.Text.{◌==◌ as str_eq}
use option_research_platform.Base.{
  ◌≡◌, ◌⊎◌, ap, sym, ◌∙◌, Option-cases, inl, inr, Bool-cases, false, refl, ◌↔◌, Bool, true, String,
  Option, none, some, List, [], ◌∷◌, arith, if◌then◌else◌, ◌&&◌, eq_iff,
}

pub record Eq (A : Type 0) : Type 0 where
  pub beq : A → A → Bool
  pub beq_iff : (a b : A) → (beq a b ≡ true) ↔ (a ≡ b)

instance abbrev pub string_eq : Eq String
string_eq = record { beq = str_eq; beq_iff = eq_iff }

pub pair_beq_iff : (a b : String × String) → ((str_eq a.0 b.0 && str_eq a.1 b.1) ≡ true) ↔ (a ≡ b)
pair_beq_iff (a, b) (c, d) =
    (λ h. ground (arith, eq_iff a c, eq_iff b d), λ h. ground (arith, eq_iff a c, eq_iff b d))

instance abbrev pub pair_eq : Eq (String × String)
pair_eq = record { beq = λ a b. str_eq a.0 b.0 && str_eq a.1 b.1; beq_iff = pair_beq_iff }

module _ {K V : Type 0} ⦃e : Eq K⦄ where
  -- `m.get(key)`
  unfoldable pub get : K → List (K × V) → Option V
  get key [] = none
  get key ((k, v) ∷ rest) = if e.beq k key then some v else get key rest

  -- `m[key] = value`
  unfoldable pub put : K → V → List (K × V) → List (K × V)
  put key value [] = (key, value) ∷ []
  put key value ((k, v) ∷ rest) =
      if e.beq k key then (k, value) ∷ rest else (k, v) ∷ put key value rest

  -- `m.pop(key, None)`
  unfoldable pub remove : K → List (K × V) → List (K × V)
  remove key [] = []
  remove key ((k, v) ∷ rest) = if e.beq k key then remove key rest else (k, v) ∷ remove key rest

  pub get-nil : (key : K) → get key [] ≡ none
  unfolding get
  get-nil key = refl

  pub get-put :
      (j key : K) (value : V) (m : List (K × V))
      → get j (put key value m) ≡ (if e.beq key j then some value else get j m)
  unfolding get put
  get-put j key value [] = refl
  get-put j key value ((k, v) ∷ rest) =
      ground (arith, e.beq_iff key j, e.beq_iff k key, e.beq_iff k j, get-put j key value rest)

  pub get-put_self :
      (key : K) (value : V) (m : List (K × V)) → get key (put key value m) ≡ some value
  get-put_self key value m = ground (arith, get-put key key value m, e.beq_iff key key)

  pub get-remove :
      (j key : K) (m : List (K × V))
      → get j (remove key m) ≡ (if e.beq key j then none else get j m)
  unfolding get remove
  get-remove j key [] = ground arith
  get-remove j key ((k, v) ∷ rest) =
      ground (arith, e.beq_iff key j, e.beq_iff k key, e.beq_iff k j, get-remove j key rest)

  -- `m.setdefault(key, value)`, for the dictionary that it leaves.
  unfoldable pub set_default : K → V → List (K × V) → List (K × V)
  set_default key value m = elim (get key m) [ none ↦ put key value m | some v ↦ m ]

  -- Its result.
  abbrev pub get_or : K → V → List (K × V) → V
  get_or key value m = elim (get key m) [ none ↦ value | some v ↦ v ]

  pub get-set_default :
      (j key : K) (value : V) (m : List (K × V))
      → get j (set_default key value m)
        ≡ (if e.beq key j then some (get_or key value m) else get j m)
  unfolding set_default
  get-set_default j key value m = ground (arith, get-put j key value m, e.beq_iff key j)

  -- What is found after a write is what was written, or was there before.
  pub found-put :
      (j key : K) (value found : V) (m : List (K × V))
      → get j (put key value m) ≡ some found
      → ((key ≡ j) × (value ≡ found)) ⊎ ((get j m ≡ some found) × (e.beq key j ≡ false))
  found-put j key value found m h = elim (Bool-cases (e.beq key j)) [
    | inl same ↦ inl ((e.beq_iff key j).0 same, ground (arith, get-put j key value m))
    | inr other ↦ inr (ground (arith, get-put j key value m), other)
  ]

  pub set_default-new :
      (key : K) (value : V) (m : List (K × V))
      → get key m ≡ none
      → set_default key value m ≡ put key value m
  unfolding set_default
  set_default-new key value m h = rw (h, set_default) refl

  pub set_default-old :
      (key : K) (value v : V) (m : List (K × V)) → get key m ≡ some v → set_default key value m ≡ m
  unfolding set_default
  set_default-old key value v m h = rw (h, set_default) refl

  pub kept-set_default :
      (j key : K) (value v : V) (m : List (K × V))
      → get j m ≡ some v
      → get j (set_default key value m) ≡ some v
  kept-set_default j key value v m h = elim (Option-cases (get key m)) [
    | inl new ↦ rw (set_default-new key value m new) (
        ground (
          arith,
          get-put j key value m,
          e.beq_iff key j,
          λ (same : key ≡ j). ap (λ k. get k m) same,
        ))
    | inr (w, old) ↦ rw (set_default-old key value w m old) h
  ]

  pub found-set_default :
      (j key : K) (value found : V) (m : List (K × V))
      → get j (set_default key value m) ≡ some found
      → ((key ≡ j) × (value ≡ found) × (get key m ≡ none)) ⊎ (get j m ≡ some found)
  found-set_default j key value found m h = elim (Option-cases (get key m)) [
    | inl new ↦
        elim (found-put j key value found m
          (sym (ap (get j) (set_default-new key value m new)) ∙ h)) [
            | inl (same, now) ↦ inl (same, now, new)
            | inr (before, other) ↦ inr before
          ]
    | inr (w, old) ↦ inr (sym (ap (get j) (set_default-old key value w m old)) ∙ h)
  ]

  pub get-set_default_self :
      (key : K) (value : V) (m : List (K × V))
      → get key (set_default key value m) ≡ some (get_or key value m)
  get-set_default_self key value m =
      ground (arith, get-set_default key key value m, e.beq_iff key key)
