-- ===== src/Pareto/Coverage.antt =====
-- The front of `ParetoEngine.extract_front` (backend/optimization/pareto.py) accounts for all that is
-- dominated.
use mathlib.Core.List.{cons≢nil}
use text.Mathlib.Text.{◌==◌ as str_eq}
use option_research_platform.Base.{
  ℕ, zero, suc, ◌≤◌, ◌<◌, ◌≡◌, ◌≢◌, ◌⊎◌, refl, inl, inr, Bool, true, false, not, List, [], ◌∷◌,
  arith, All, Among, select, length, ◌&&◌, Bool-cases, All-Among, All-weaken, subst, sym,
}
use option_research_platform.Base.Sort.{Among-sorted}
use option_research_platform.Pareto.{
  ObjectiveDefinition, CandidateEvaluation, dominates, dominators, divide, divide_one, non_failed,
  extract_front, stable_key,
}
use option_research_platform.Pareto.Dominance.{IsComplete, dominates_irreflexive, dominates_trans}
use option_research_platform.Pareto.Division.{IsDominated, IsCopy, extract_front-Divides}

and_right : (a b : Bool) → (a && b) ≡ true → b ≡ true
and_right a b h = ground arith

empty_or_not : {A : Type 0} (xs : List A) → (xs ≡ []) ⊎ (xs ≢ [])
empty_or_not [] = inl refl
empty_or_not (x ∷ xs) = inr cons≢nil

module _ {A : Type 0} (p : A → Bool) where
  -- A selection that is not empty has an element.
  select_found : (xs : List A) → select p xs ≢ [] → (x : A) × Among x xs × (p x ≡ true)
  select_found [] h = absurd (h refl)
  select_found (x ∷ xs) h = elim (Bool-cases (p x)) [
    | inl e ↦ (x, inl refl, e)
    | inr e ↦ let (y, m, q) = select_found xs (rw e at h) in (y, inr m, q)
  ]

  -- A test that holds of fewer elements selects fewer.
  select_le :
      (q : A → Bool) (xs : List A)
      → All (λ y. p y ≡ true → q y ≡ true) xs
      → length (select p xs) ≤ length (select q xs)
  select_le q [] h = omega arith
  select_le q (x ∷ xs) h = ground (arith, h.0, select_le q xs h.1)

  select_lt :
      (q : A → Bool) (xs : List A) (x : A)
      → All (λ y. p y ≡ true → q y ≡ true) xs
      → Among x xs
      → p x ≡ false
      → q x ≡ true
      → length (select p xs) < length (select q xs)
  select_lt q [] x h m e f = absurd m
  select_lt q (y ∷ xs) x h (inl s) e f =
      let ey : p y ≡ false = subst (λ z. p z ≡ false) s e in
      let fy : q y ≡ true = subst (λ z. q z ≡ true) s f in
      rw ey (rw fy (ground (arith, select_le q xs h.1)))
  select_lt q (y ∷ xs) x h (inr m) e f = ground (arith, h.0, select_lt q xs x h.1 m e f)

module _ {D : Type 0} (objectives : List ObjectiveDefinition)
    (pool : List (CandidateEvaluation D)) where
  -- How many dominate it.
  above : CandidateEvaluation D → ℕ
  above c = length (select (λ o. dominates objectives o c) pool)

  abbrev Covers : CandidateEvaluation D → CandidateEvaluation D → Type 0
  Covers c f =
      Among f pool × (dominators objectives pool f ≡ []) × (dominates objectives f c ≡ true)

  -- A dominator has fewer dominators.
  above_lt :
      All (IsComplete objectives) pool
      → (a c : CandidateEvaluation D) → Among a pool
      → IsComplete objectives c
      → dominates objectives a c ≡ true
      → above a < above c
  unfolding above
  above_lt complete a c m cd h =
      select_lt (λ o. dominates objectives o a) (λ o. dominates objectives o c) pool a
        (All-weaken _ _ pool
          (λ o co k. dominates_trans objectives o a c co (All-Among _ pool a complete m) cd k h)
          complete)
        m (dominates_irreflexive objectives a) h

  -- Climbing from dominator to dominator ends at one that has none.
  climb :
      (fuel : ℕ) (c : CandidateEvaluation D)
      → All (IsComplete objectives) pool
      → IsComplete objectives c
      → above c < fuel
      → dominators objectives pool c ≢ []
      → (f : CandidateEvaluation D) × Covers c f
  climb zero c complete h k dominated = absurd (omega arith)
  climb (suc fuel) c complete h k dominated =
      let (a, m, t) = select_found _ pool dominated in
      let over : dominates objectives a c ≡ true =
        and_right (not (str_eq a.candidate_id c.candidate_id)) (dominates objectives a c) t in
      elim (empty_or_not (dominators objectives pool a)) [
        | inl top ↦ (a, (m, top, over))
        | inr more ↦
            let (f, (g, top, over_a)) =
              climb fuel a complete (All-Among _ pool a complete m)
                (omega (arith, above_lt complete a c m h over)) more in
            (
              f,
              (
                g,
                top,
                dominates_trans objectives f a c (All-Among _ pool f complete g)
                    (All-Among _ pool a complete m) h over_a over,
              ),
            )
      ]

  -- A candidate without dominators is on the front.
  on_front :
      (candidates : List (CandidateEvaluation D)) (f : CandidateEvaluation D)
      → Among f candidates
      → dominators objectives pool f ≡ []
      → Among f (divide objectives pool candidates).front
  unfolding divide
  on_front [] f m e = m
  on_front (c ∷ rest) f (inl s) e =
      let ec : dominators objectives pool c ≡ [] =
        subst (λ z. dominators objectives pool z ≡ []) s e in
      rw ec (inl s)
  on_front (c ∷ rest) f (inr m) e = still c (dominators objectives pool c) (on_front rest f m e)
    where
      still :
          (c : CandidateEvaluation D) (ds : List (CandidateEvaluation D))
          → Among f (divide objectives pool rest).front
          → Among f (divide_one c ds (divide objectives pool rest)).front
      still c [] n = inr n
      still c (d ∷ ds) n = n

  -- A dominated copy of a candidate.
  covered :
      (d : CandidateEvaluation D)
      → All (IsComplete objectives) pool
      → IsDominated objectives pool d
      → IsCopy pool d
      → (f : CandidateEvaluation D) × Covers d f
  covered d complete dominated (c, m, e) =
      let whole : IsComplete objectives d =
        subst (λ x. IsComplete objectives x) (sym e) (All-Among _ pool c complete m) in
      climb (suc (above d)) d complete whole (omega arith) dominated.0

  extract_front-Among :
      (evaluations : List (CandidateEvaluation D)) (f : CandidateEvaluation D)
      → non_failed evaluations ≡ pool
      → Among f pool
      → dominators objectives pool f ≡ []
      → Among f (extract_front evaluations objectives).front
  unfolding extract_front
  extract_front-Among evaluations f e m h = rw e (Among-sorted stable_key f _ (on_front pool f m h))

All-both :
    {A : Type 0} (P Q : A → Type 0) (xs : List A) → All P xs → All Q xs → All (λ x. P x × Q x) xs
All-both P Q [] h k = tt
All-both P Q (x ∷ xs) h k = ((h.0, k.0), All-both P Q xs h.1 k.1)

-- Where every succeeded evaluation has the metrics of all objectives, each dominated evaluation of
-- extract_front is dominated by one of the front.
pub extract_front-covers :
    {D : Type 0} (evaluations : List (CandidateEvaluation D))
    (objectives : List ObjectiveDefinition)
    → All (IsComplete objectives) (non_failed evaluations)
    → All
        (λ d.
          (f : CandidateEvaluation D) × Among f (extract_front evaluations objectives).front
          × (dominates objectives f d ≡ true))
        (extract_front evaluations objectives).dominated
extract_front-covers {D} evaluations objectives complete =
    let g = (extract_front-Divides evaluations objectives).0 in
    All-weaken _ _ (extract_front evaluations objectives).dominated
      (λ d (h, k).
        let (f, (m, top, over)) = covered objectives (non_failed evaluations) d complete h k in
        (f, extract_front-Among objectives (non_failed evaluations) evaluations f refl m top, over))
      (All-both (IsDominated objectives (non_failed evaluations)) (IsCopy (non_failed evaluations))
        _ g.dominated g.copies)
