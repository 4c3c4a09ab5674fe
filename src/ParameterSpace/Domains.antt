-- ===== src/ParameterSpace/Domains.antt =====
-- What values the domain of a parameter has (backend/optimization/parameter_space.py).
use option_research_platform.Base.{
  ℕ, zero, suc, ◌+◌, ◌*◌, ◌/◌, ◌<◌, ◌≤◌, ◌≡◌, ◌↔◌, ◌⊎◌, refl, sym, ap, ◌∙◌, inl, inr, Bool, true,
  false, String, List, [], ◌∷◌, map, Among, arith, if◌then◌else◌,
}
use option_research_platform.Base.Int.{
  ℤ, pos, pos_part, neg_part, negsuc, ◌+ℤ◌, ◌-ℤ◌, ◌≤ℤ◌, ltb_ℤ, int_laws,
}
use option_research_platform.Base.Result.{ok}
use option_research_platform.ParameterSpace.{
  ParameterValue, flag, int, float, word, ParameterDefinition, integer_range, float_range,
  categorical, boolean, ordered_discrete, range, range_from, validate_parameter,
}
use option_research_platform.ParameterSpace.Expansion.{domain_of, float_from, steps_of, round_to}

-- A value that the parameter can take: the integers from the minimum by its steps that are not above the
-- maximum; the amounts from the minimum by as many steps as go into the range, to the nearest, each
-- rounded; a choice; a truth value; a listed value.
abbrev pub HasValue : ParameterDefinition → ParameterValue → Type 0
HasValue (integer_range name lo hi step) v =
    (i : ℕ) × (v ≡ int (lo +ℤ pos (i * pos_part step))) × (lo +ℤ pos (i * pos_part step) ≤ℤ hi)
HasValue (float_range name lo hi step precision) v =
    (i : ℕ) × (i ≤ steps_of lo hi step)
    × (v ≡ float (round_to precision (lo +ℤ pos (i * pos_part step))))
HasValue (categorical name choices) v = (c : String) × Among c choices × (v ≡ word c)
HasValue (boolean name) v = (b : Bool) × (v ≡ flag b)
HasValue (ordered_discrete name values) v = Among v values

le_of_div : (i m s : ℕ) → 1 ≤ s → i < m / s + 1 → i * s ≤ m
le_of_div i m s h k = grind arith

div_of_le : (i m s : ℕ) → 1 ≤ s → i * s ≤ m → i < m / s + 1
div_of_le i m s h k = grind arith

one_more : (i s : ℕ) (a b : ℤ) → pos s ≡ b → a +ℤ b +ℤ pos (i * s) ≡ a +ℤ pos (suc i * s)
one_more i s a b h =
    let product : suc i * s ≡ s + i * s = grind arith in
    omega (int_laws, product, ap pos_part h, ap neg_part h)

-- A value at every step.
stepped : (ℤ → ParameterValue) → ℕ → ℤ → ℤ → List ParameterValue
stepped f zero start step = []
stepped f (suc n) start step = f start ∷ stepped f n (start +ℤ step) step

range_from-stepped : (n : ℕ) (start step : ℤ) → range_from n start step ≡ stepped int n start step
unfolding stepped
range_from-stepped zero start step = refl
range_from-stepped (suc n) start step =
    ap (λ l. int start ∷ l) (range_from-stepped n (start +ℤ step) step)

float_from-stepped :
    (n precision : ℕ) (start step : ℤ)
    → float_from n precision start step ≡ stepped (λ x. float (round_to precision x)) n start step
unfolding stepped float_from
float_from-stepped zero precision start step = refl
float_from-stepped (suc n) precision start step =
    ap (λ l. float (round_to precision start) ∷ l)
      (float_from-stepped n precision (start +ℤ step) step)

positive_part : (s : ℤ) → pos 0 ≤ℤ s → pos (pos_part s) ≡ s
positive_part (pos n) h = refl
positive_part (negsuc n) h = absurd (omega arith)

module _ (f : ℤ → ParameterValue) (step : ℤ) (positive : pos 1 ≤ℤ step) (v : ParameterValue) where
  own : pos (pos_part step) ≡ step
  own = positive_part step (omega arith)

  of_stepped :
      (n : ℕ) (start : ℤ)
      → Among v (stepped f n start step)
      → (i : ℕ) × (i < n) × (v ≡ f (start +ℤ pos (i * pos_part step)))
  unfolding stepped
  of_stepped zero start m = absurd m
  of_stepped (suc n) start (inl e) = (zero, omega arith, e ∙ ap f (at_start start))
    where
      at_start : (a : ℤ) → a ≡ a +ℤ pos (zero * pos_part step)
      at_start a =
          let none_yet : zero * pos_part step ≡ zero = grind arith in omega (int_laws, none_yet)
  of_stepped (suc n) start (inr m) =
      let (i, less, e) = of_stepped n (start +ℤ step) m in
      (suc i, omega arith, e ∙ ap f (one_more i (pos_part step) start step own))

  to_stepped :
      (n : ℕ) (start : ℤ) (i : ℕ)
      → i < n
      → v ≡ f (start +ℤ pos (i * pos_part step))
      → Among v (stepped f n start step)
  unfolding stepped
  to_stepped zero start i less e = absurd (omega arith)
  to_stepped (suc n) start zero less e = inl (e ∙ ap f (sym (at_start start)))
    where
      at_start : (a : ℤ) → a ≡ a +ℤ pos (zero * pos_part step)
      at_start a =
          let none_yet : zero * pos_part step ≡ zero = grind arith in omega (int_laws, none_yet)
  to_stepped (suc n) start (suc i) less e = inr (
      to_stepped n (start +ℤ step) i (omega arith)
        (e ∙ ap f (sym (one_more i (pos_part step) start step own))))

Among-map-word :
    (v : ParameterValue) (choices : List String)
    → Among v (map word choices) ↔ ((c : String) × Among c choices × (v ≡ word c))
Among-map-word v [] = (λ m. absurd m, λ (c, m, e). absurd m)
Among-map-word v (x ∷ xs) = (
  λ m. elim m [
    | inl e ↦ (x, inl refl, e)
    | inr n ↦ let (c, k, e) = (Among-map-word v xs).0 n in (c, inr k, e)
  ],
  λ (c, m, e). elim m [
    | inl same ↦ inl (e ∙ ap word same)
    | inr k ↦ inr ((Among-map-word v xs).1 (c, k, e))
  ],
)

range-values :
    (lo hi step : ℤ) (v : ParameterValue)
    → pos 1 ≤ℤ step
    → lo ≤ℤ hi
    → Among v (range lo hi step) ↔ (
        (i : ℕ) × (v ≡ int (lo +ℤ pos (i * pos_part step))) × (lo +ℤ pos (i * pos_part step) ≤ℤ hi))
range-values lo hi step v positive ordered =
    let n = pos_part (hi -ℤ lo) / pos_part step + 1 in
    let whole = positive_part (hi -ℤ lo) (omega int_laws) in
    let e : range lo hi step ≡ stepped int n lo step =
      not_empty lo hi ordered _ ∙ range_from-stepped n lo step in
    rw e (
      λ m.
          let (i, less, same) = of_stepped int step positive v n lo m in
          let within = le_of_div i (pos_part (hi -ℤ lo)) (pos_part step) (omega arith) less in
          (i, same, omega (int_laws, within, ap pos_part whole, ap neg_part whole)),
      λ (i, same, within).
          let fits : i * pos_part step ≤ pos_part (hi -ℤ lo) =
            omega (int_laws, ap pos_part whole, ap neg_part whole) in
          to_stepped int step positive v n lo i
            (div_of_le i (pos_part (hi -ℤ lo)) (pos_part step) (omega arith) fits) same,
    )
  where
    not_empty :
        (a b : ℤ) → a ≤ℤ b → (xs : List ParameterValue) → (if ltb_ℤ b a then [] else xs) ≡ xs
    not_empty a b h xs = ground arith

-- The domain of a parameter that the validation accepts has the values that it can take.
pub domain_of-HasValue :
    (p : ParameterDefinition) (v : ParameterValue)
    → validate_parameter p ≡ ok tt
    → Among v (domain_of p) ↔ HasValue p v
unfolding domain_of
domain_of-HasValue (integer_range name lo hi step) v ok_ =
    range-values lo hi step v (ground arith) (ground arith)
domain_of-HasValue (float_range name lo hi step precision) v ok_ =
    let positive : pos 1 ≤ℤ step = ground arith in
    let value : ℤ → ParameterValue = λ x. float (round_to precision x) in
    rw (float_from-stepped (steps_of lo hi step + 1) precision lo step) (
      λ m.
          let (i, less, same) = of_stepped value step positive v (steps_of lo hi step + 1) lo m in
          (i, omega arith, same),
      λ (i, less, same).
          to_stepped value step positive v (steps_of lo hi step + 1) lo i (omega arith) same,
    )
domain_of-HasValue (categorical name choices) v ok_ = Among-map-word v choices
domain_of-HasValue (boolean name) v ok_ = (
  λ m. elim m [ inl e ↦ (false, e) | inr n ↦ elim n [ inl e ↦ (true, e) | inr k ↦ absurd k ] ],
  λ (b, e). either b e,
)
  where
    either : (b : Bool) → v ≡ flag b → (v ≡ flag false) ⊎ ((v ≡ flag true) ⊎ ⊥)
    either false e = inl e
    either true e = inr (inl e)
domain_of-HasValue (ordered_discrete name values) v ok_ = (λ m. m, λ m. m)
