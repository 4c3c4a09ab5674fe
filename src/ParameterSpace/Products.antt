-- ===== src/ParameterSpace/Products.antt =====
-- The product of domains (backend/optimization/parameter_space.py) has every assignment.
use option_research_platform.Base.{
  ◌≡◌, refl, inl, inr, String, List, [], ◌∷◌, ◌++◌, Among, Among-append_left, subst, sym, ap, ◌⊎◌,
}
use option_research_platform.ParameterSpace.{ParameterValue, Parameters}
use option_research_platform.ParameterSpace.Expansion.{with_value, with_values, product}

-- An assignment of a value of its domain to each key, in order.
abbrev pub Assigns : List (String × List ParameterValue) → Parameters → Type 0
Assigns [] [] = Unit
Assigns [] (p ∷ ps) = ⊥
Assigns ((key, domain) ∷ rest) [] = ⊥
Assigns ((key, domain) ∷ rest) ((k, v) ∷ ps) = (k ≡ key) × Among v domain × Assigns rest ps

Among-append_right : {A : Type 0} (a : A) (xs ys : List A) → Among a ys → Among a (xs ++ ys)
Among-append_right a [] ys m = m
Among-append_right a (x ∷ xs) ys m = inr (Among-append_right a xs ys m)

Among-of-append :
    {A : Type 0} (a : A) (xs ys : List A) → Among a (xs ++ ys) → Among a xs ⊎ Among a ys
Among-of-append a [] ys m = inr m
Among-of-append a (x ∷ xs) ys (inl e) = inl (inl e)
Among-of-append a (x ∷ xs) ys (inr m) = elim (Among-of-append a xs ys m) [
  | inl l ↦ inl (inr l)
  | inr r ↦ inr r
]

Among-with_value :
    (key : String) (value : ParameterValue) (ps : Parameters) (rest : List Parameters)
    → Among ps rest
    → Among ((key, value) ∷ ps) (with_value key value rest)
Among-with_value key value ps (q ∷ rest) (inl e) = inl (ap (λ x. (key, value) ∷ x) e)
Among-with_value key value ps (q ∷ rest) (inr m) = inr (Among-with_value key value ps rest m)
Among-with_value key value ps [] m = absurd m

Among-with_values :
    (key : String) (value : ParameterValue) (domain : List ParameterValue) (ps : Parameters)
    (rest : List Parameters)
    → Among value domain
    → Among ps rest
    → Among ((key, value) ∷ ps) (with_values key domain rest)
Among-with_values key value (v ∷ domain) ps rest (inl e) m =
    Among-append_left _ (with_value key v rest) (with_values key domain rest) (
      subst (λ x. Among ((key, x) ∷ ps) (with_value key v rest)) (sym e)
        (Among-with_value key v ps rest m))
Among-with_values key value (v ∷ domain) ps rest (inr d) m =
    Among-append_right _ (with_value key v rest) (with_values key domain rest)
      (Among-with_values key value domain ps rest d m)
Among-with_values key value [] ps rest d m = absurd d

-- Every assignment is in the product.
pub product_complete :
    (domains : List (String × List ParameterValue)) (ps : Parameters)
    → Assigns domains ps
    → Among ps (product domains)
unfolding product
product_complete [] [] h = inl refl
product_complete [] (p ∷ ps) h = absurd h
product_complete ((key, domain) ∷ rest) [] h = absurd h
product_complete ((key, domain) ∷ rest) ((k, v) ∷ ps) h =
    subst (λ x. Among ((x, v) ∷ ps) (with_values key domain (product rest))) (sym h.0)
      (Among-with_values key v domain ps (product rest) h.1 (product_complete rest ps h.2))

of-with_value :
    (key : String) (value : ParameterValue) (rest : List Parameters) (ps : Parameters)
    → Among ps (with_value key value rest)
    → (qs : Parameters) × (ps ≡ (key, value) ∷ qs) × Among qs rest
of-with_value key value [] ps m = absurd m
of-with_value key value (q ∷ rest) ps (inl e) = (q, e, inl refl)
of-with_value key value (q ∷ rest) ps (inr m) =
    let (qs, e, n) = of-with_value key value rest ps m in (qs, e, inr n)

of-with_values :
    (key : String) (domain : List ParameterValue) (rest : List Parameters) (ps : Parameters)
    → Among ps (with_values key domain rest)
    → (v : ParameterValue) × (qs : Parameters) × (ps ≡ (key, v) ∷ qs)
      × Among v domain
      × Among qs rest
of-with_values key [] rest ps m = absurd m
of-with_values key (v ∷ domain) rest ps m =
    elim (Among-of-append ps (with_value key v rest) (with_values key domain rest) m) [
      | inl l ↦ let (qs, e, n) = of-with_value key v rest ps l in (v, qs, e, inl refl, n)
      | inr r ↦ let (w, qs, e, d, n) = of-with_values key domain rest ps r in (w, qs, e, inr d, n)
    ]

-- Nothing else is.
pub product_sound :
    (domains : List (String × List ParameterValue)) (ps : Parameters)
    → Among ps (product domains)
    → Assigns domains ps
unfolding product
product_sound [] ps (inl e) = subst (Assigns []) (sym e) tt
product_sound [] ps (inr m) = absurd m
product_sound ((key, domain) ∷ rest) ps m =
    let (v, qs, e, d, n) = of-with_values key domain (product rest) ps m in
    subst (Assigns ((key, domain) ∷ rest)) (sym e) (refl, d, product_sound rest qs n)
