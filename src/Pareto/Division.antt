-- ===== src/Pareto/Division.antt =====
-- What `ParetoEngine.extract_front` (backend/optimization/pareto.py) puts where.
use mathlib.Core.List.{Perm, perm_middle, cons≢nil}
use mathlib.Core.List.Perm
use text.Mathlib.Text.{◌==◌ as str_eq}
use option_research_platform.Base.{
  ◌≡◌, ◌≢◌, refl, ap, ◌∙◌, inl, inr, Bool, false, not, List, [], ◌∷◌, ◌++◌, map, All, Among, select,
  ◌&&◌, Bool-cases, All-weaken, sym,
}
use option_research_platform.Base.Sort.{sorted, sorted-perm, All-sorted, sorted-IsSorted, IsSorted}
use option_research_platform.Base.Text.{text_order}
use option_research_platform.Pareto.{
  ObjectiveDefinition, CandidateEvaluation, ParetoFrontResult, dominates, dominators, divide,
  divide_one, non_failed, extract_front, stable_key,
}

module _ {D : Type 0} where
  -- No evaluation of the pool, but one with its own identifier, dominates it.
  abbrev pub IsUndominated :
      List ObjectiveDefinition → List (CandidateEvaluation D) → CandidateEvaluation D → Type 0
  IsUndominated objectives pool e =
      All
        (λ other.
          (not (str_eq other.candidate_id e.candidate_id) && dominates objectives other e) ≡ false)
        pool

  select-none :
      (p : CandidateEvaluation D → Bool) (xs : List (CandidateEvaluation D))
      → select p xs ≡ []
      → All (λ x. p x ≡ false) xs
  select-none p [] h = tt
  select-none p (x ∷ xs) h = elim (Bool-cases (p x)) [
    | inl e ↦ absurd (cons≢nil (rw e at h))
    | inr e ↦ (e, select-none p xs (rw e at h))
  ]

  -- It has dominators, and their identifiers in order.
  abbrev pub IsDominated :
      List ObjectiveDefinition → List (CandidateEvaluation D) → CandidateEvaluation D → Type 0
  IsDominated objectives pool e =
      (dominators objectives pool e ≢ [])
      × (e.dominated_by
          ≡ sorted text_order (map (λ item. item.candidate_id) (dominators objectives pool e)))

  -- It is one of the candidates in all but `dominated_by`.
  abbrev pub IsCopy : List (CandidateEvaluation D) → CandidateEvaluation D → Type 0
  IsCopy candidates e =
      (c : CandidateEvaluation D) × Among c candidates
      × (e ≡ record c { dominated_by = e.dominated_by })

  -- A division of candidates.
  pub record Divides (objectives : List ObjectiveDefinition)
      (pool candidates : List (CandidateEvaluation D)) (r : ParetoFrontResult D) : Type 0 where
    pub undominated : All (IsUndominated objectives pool) r.front
    pub unchanged : All (λ e. Among e candidates) r.front
    pub dominated : All (IsDominated objectives pool) r.dominated
    pub copies : All (IsCopy candidates) r.dominated
    pub whole :
        Perm
          (map (λ e. e.candidate_id) r.front ++ map (λ e. e.candidate_id) r.dominated)
          (map (λ e. e.candidate_id) candidates)

  module _ (objectives : List ObjectiveDefinition) (pool : List (CandidateEvaluation D)) where
    divide_one_lem :
        (c : CandidateEvaluation D) (rest ds : List (CandidateEvaluation D))
        (later : ParetoFrontResult D)
        → dominators objectives pool c ≡ ds
        → Divides objectives pool rest later
        → Divides objectives pool (c ∷ rest) (divide_one c ds later)
    divide_one_lem c rest [] later e g = record {
      undominated = (select-none _ pool e, g.undominated);
      unchanged = (inl refl, All-weaken _ _ later.front (λ x m. inr m) g.unchanged);
      dominated = g.dominated;
      copies = All-weaken _ _ later.dominated (λ x m. (m.0, inr m.1, m.2)) g.copies;
      whole = Perm.cons c.candidate_id g.whole;
    }
    divide_one_lem c rest (d ∷ ds) later e g = record {
      undominated = g.undominated;
      unchanged = All-weaken _ _ later.front (λ x m. inr m) g.unchanged;
      dominated = (
        (
          λ n. cons≢nil (sym e ∙ n),
          ap (λ l. sorted text_order (map (λ item. item.candidate_id) l)) (sym e),
        ),
        g.dominated,
      );
      copies = (
        (c, inl refl, refl),
        All-weaken _ _ later.dominated (λ x m. (m.0, inr m.1, m.2)) g.copies,
      );
      whole =
          Perm.trans
            (perm_middle (map (λ e. e.candidate_id) later.front)
              (map (λ e. e.candidate_id) later.dominated))
            (Perm.cons c.candidate_id g.whole);
    }

    divide-Divides :
        (candidates : List (CandidateEvaluation D))
        → Divides objectives pool candidates (divide objectives pool candidates)
    unfolding divide
    divide-Divides [] = record {
      undominated = tt;
      unchanged = tt;
      dominated = tt;
      copies = tt;
      whole = Perm.rfl;
    }
    divide-Divides (c ∷ rest) =
        divide_one_lem c rest (dominators objectives pool c) (divide objectives pool rest) refl
          (divide-Divides rest)

  -- The front of extract_front and the dominated evaluations together have the identifiers of the
  -- succeeded evaluations, each as often. An evaluation of the front is a succeeded one, unchanged, and
  -- no succeeded evaluation with another identifier dominates it. A dominated one has such
  -- dominators, and is a succeeded one but for dominated_by, which has their identifiers in order. Both lists are in the order of the
  -- scores, the highest first, and of the identifiers where scores tie.
  pub extract_front-Divides :
      (evaluations : List (CandidateEvaluation D)) (objectives : List ObjectiveDefinition)
      → let r = extract_front evaluations objectives in
        Divides objectives (non_failed evaluations) (non_failed evaluations) r
        × IsSorted stable_key r.front
        × IsSorted stable_key r.dominated
  unfolding extract_front
  extract_front-Divides evaluations objectives =
      let g = divide-Divides objectives (non_failed evaluations) (non_failed evaluations) in
      let divided : ParetoFrontResult D =
        divide objectives (non_failed evaluations) (non_failed evaluations) in
      (
        record {
          undominated =
              All-sorted stable_key (IsUndominated objectives (non_failed evaluations))
                divided.front g.undominated;
          unchanged =
              All-sorted stable_key (λ e. Among e (non_failed evaluations)) divided.front
                g.unchanged;
          dominated =
              All-sorted stable_key (IsDominated objectives (non_failed evaluations))
                divided.dominated g.dominated;
          copies =
              All-sorted stable_key (IsCopy (non_failed evaluations)) divided.dominated g.copies;
          whole =
              Perm.trans
                (Perm.append (Perm.map (λ e. e.candidate_id) (sorted-perm stable_key divided.front))
                  (Perm.map (λ e. e.candidate_id) (sorted-perm stable_key divided.dominated)))
                g.whole;
        },
        sorted-IsSorted stable_key divided.front,
        sorted-IsSorted stable_key divided.dominated,
      )
