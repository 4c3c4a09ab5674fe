-- ===== src/Pareto/Dominance.antt =====
-- Dominance (`ParetoEngine._dominates`, backend/optimization/pareto.py) as a relation.
use option_research_platform.Base.{
  ◌≡◌, refl, inl, inr, Bool, true, false, String, List, [], ◌∷◌, Option, some, none, arith, All,
  is_some, ◌||◌, Bool-cases, true≢false, ap, ◌∙◌,
}
use option_research_platform.Base.Int.{ℤ}
use option_research_platform.Pareto.{
  ObjectiveDefinition, ObjectiveDirection, maximize, minimize, CandidateEvaluation, metric, worse,
  compare_values, dominates_from, dominates,
}

-- The metrics of every objective are there.
abbrev pub HasAll : List ObjectiveDefinition → List (String × ℤ) → Type 0
HasAll objectives metrics = All (λ o. is_some (metric o.metric_key metrics) ≡ true) objectives

-- An evaluation has the metrics of every objective.
abbrev pub IsComplete : {D : Type 0} → List ObjectiveDefinition → CandidateEvaluation D → Type 0
IsComplete objectives e = HasAll objectives e.objective_metrics

-- If a is no worse than b, and b no worse than c, then a is no worse than c, and better if one is.
worse_trans :
    (d : ObjectiveDirection) (a b c : ℤ)
    → worse d a b ≡ false
    → worse d b c ≡ false
    → (worse d a c ≡ false) × (worse d c a ≡ (worse d b a || worse d c b))
worse_trans maximize a b c h k = (ground arith, ground arith)
worse_trans minimize a b c h k = (ground arith, ground arith)

regroup : (s t x y : Bool) → ((s || x) || (t || y)) ≡ ((s || t) || (x || y))
regroup s t x y = ground arith

worse_self : (d : ObjectiveDirection) (a : ℤ) → worse d a a ≡ false
worse_self maximize a = ground arith
worse_self minimize a = ground arith

or_false : (s : Bool) → (s || false) ≡ s
or_false true = refl
or_false false = refl

compare_values_self :
    (d : ObjectiveDirection) (m : Option ℤ) (s : Bool) (later : Bool → Bool)
    → compare_values d m m s later ≡ later s
compare_values_self d none s later = refl
compare_values_self d (some a) s later = rw (worse_self d a) (ap later (or_false s))

not_worse :
    (d : ObjectiveDirection) (a b : ℤ) (s : Bool) (later : Bool → Bool)
    → compare_values d (some a) (some b) s later ≡ true
    → (worse d a b ≡ false) × (later (s || worse d b a) ≡ true)
not_worse d a b s later h = elim (Bool-cases (worse d a b)) [
  | inl e ↦ absurd (true≢false (rw e at h) refl)
  | inr e ↦ (e, rw e at h)
]

compare_values_trans :
    (d : ObjectiveDirection) (a b c : Option ℤ) (s t : Bool) (f g h : Bool → Bool)
    → is_some a ≡ true
    → is_some b ≡ true
    → is_some c ≡ true
    → ((s' t' : Bool) → f s' ≡ true → g t' ≡ true → h (s' || t') ≡ true)
    → compare_values d a b s f ≡ true
    → compare_values d b c t g ≡ true
    → compare_values d a c (s || t) h ≡ true
compare_values_trans d none b c s t f g h x y z step k l = cc
compare_values_trans d (some a) none c s t f g h x y z step k l = cc
compare_values_trans d (some a) (some b) none s t f g h x y z step k l = cc
compare_values_trans d (some a) (some b) (some c) s t f g h x y z step k l =
    let (ab, fs) = not_worse d a b s f k in
    let (bc, gt) = not_worse d b c t g l in
    let (ac, ca) = worse_trans d a b c ab bc in
    rw ac (rw ca (rw (← regroup s t (worse d b a) (worse d c b)) (step _ _ fs gt)))

dominates_from_self :
    (s : Bool) (objectives : List ObjectiveDefinition) (e : List (String × ℤ))
    → dominates_from s objectives e e ≡ s
unfolding dominates_from
dominates_from_self s [] e = refl
dominates_from_self s (o ∷ rest) e =
    compare_values_self o.direction (metric o.metric_key e) s (λ s'. dominates_from s' rest e e)
    ∙ dominates_from_self s rest e

dominates_from_trans :
    (objectives : List ObjectiveDefinition) (a b c : List (String × ℤ)) (s t : Bool)
    → HasAll objectives a
    → HasAll objectives b
    → HasAll objectives c
    → dominates_from s objectives a b ≡ true
    → dominates_from t objectives b c ≡ true
    → dominates_from (s || t) objectives a c ≡ true
unfolding dominates_from
dominates_from_trans [] a b c s t ca cb cd h k = rw h refl
dominates_from_trans (o ∷ rest) a b c s t ca cb cd h k =
    compare_values_trans o.direction (metric o.metric_key a) (metric o.metric_key b)
      (metric o.metric_key c) s t (λ s'. dominates_from s' rest a b)
      (λ s'. dominates_from s' rest b c) (λ s'. dominates_from s' rest a c) ca.0 cb.0 cd.0
      (λ s' t' p q. dominates_from_trans rest a b c s' t' ca.1 cb.1 cd.1 p q) h k

module _ {D : Type 0} (objectives : List ObjectiveDefinition) where
  -- No evaluation dominates itself.
  pub dominates_irreflexive : (e : CandidateEvaluation D) → dominates objectives e e ≡ false
  dominates_irreflexive e = dominates_from_self false objectives e.objective_metrics

  -- Among evaluations with all metrics dominance is transitive.
  pub dominates_trans :
      (a b c : CandidateEvaluation D)
      → IsComplete objectives a
      → IsComplete objectives b
      → IsComplete objectives c
      → dominates objectives a b ≡ true
      → dominates objectives b c ≡ true
      → dominates objectives a c ≡ true
  dominates_trans a b c ca cb cd h k =
      dominates_from_trans objectives a.objective_metrics b.objective_metrics c.objective_metrics
        false false ca cb cd h k
