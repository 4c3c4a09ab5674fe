-- ===== src/Providers/Claims.antt =====
-- `SchedulerService.claim` (backend/data/provider_runtime.py): no run is claimed twice.
use option_research_platform.Base.{
  ℕ, ◌+◌, ◌≡◌, ap, sym, inl, inr, Bool, true, false, String, List, [], ◌∷◌, arith, if◌then◌else◌,
  ◌||◌, ◌&&◌, Bool-cases, not,
}
use option_research_platform.Base.Dict.{pair_eq}
use option_research_platform.Providers.Runtime.{SchedulerService, is_claimed, claim}

module _ {D : Type 0} (isoformat : D → String) where
  abbrev pub run_of : String × D → String × String
  run_of (schedule_id, due_at) = (schedule_id, isoformat due_at)

  -- Some claim is about the run.
  abbrev pub is_asked : String × String → List (String × D) → Bool
  is_asked run [] = false
  is_asked run (c ∷ rest) = pair_eq.beq (run_of c) run || is_asked run rest

  claimed_as :
      (c : String × D) (run : String × String) (runs : List (String × String))
      → pair_eq.beq (run_of c) run ≡ true
      → is_claimed run runs ≡ is_claimed (run_of c) runs
  claimed_as c run runs e = ap (λ r. is_claimed r runs) (sym ((pair_eq.beq_iff (run_of c) run).0 e))

module _ {S D : Type 0} (isoformat : D → String) where
  -- The answers to claims in a row that are about one run, counted where they are true.
  pub granted : String × String → List (String × D) → SchedulerService S → ℕ
  granted run [] s = 0
  granted run (c ∷ rest) s =
      (if (claim isoformat c.0 c.1 s).0 && pair_eq.beq (run_of isoformat c) run then 1 else 0)
      + granted run rest (claim isoformat c.0 c.1 s).1

  -- Of any claims in a row about one run exactly one is granted if the run had not been claimed before
  -- and some claim asks for it, and none otherwise.
  pub granted_once :
      (claims : List (String × D)) (s : SchedulerService S) (run : String × String)
      → granted run claims s
        ≡ (if not (is_claimed run s.claimed_runs) && is_asked isoformat run claims then 1 else 0)
  unfolding granted claim
  granted_once [] s run = ground arith
  granted_once (c ∷ rest) s run =
      elim (Bool-cases (is_claimed (run_of isoformat c) s.claimed_runs)) [
        | inl old ↦
            rw old
              (ground (arith, granted_once rest s run, claimed_as isoformat c run s.claimed_runs))
        | inr new ↦ rw new (
            ground (
              arith,
              granted_once rest (record s { claimed_runs = run_of isoformat c ∷ s.claimed_runs })
                  run,
              claimed_as isoformat c run s.claimed_runs,
            ))
      ]
