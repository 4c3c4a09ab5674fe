-- ===== src/Orchestration/Partition.antt =====
-- How an expiration divides the legs of a position (backend/backtesting/orchestration.py).
use mathlib.Core.List.{Perm, perm_middle}
use mathlib.Core.List.Perm
use option_research_platform.Base.{
  ◌≡◌, inl, inr, true, false, List, [], ◌∷◌, ◌++◌, map, All, arith, Bool-cases,
}
use option_research_platform.Base.Int.{ℤ, pos, ◌≤ℤ◌, ltb_ℤ, eqb_ℤ}
use option_research_platform.Orchestration.{
  LegFillSnapshot, labels_where, is_expired, is_surviving, orchestrate_expiration,
}
use option_research_platform.Orchestration.Integrity.{IsOpenOrFlat}

survives : (n : ℤ) → pos 0 ≤ℤ n → eqb_ℤ n (pos 0) ≡ false → ltb_ℤ (pos 0) n ≡ true
survives n h k = ground arith

stays : (n : ℤ) → eqb_ℤ n (pos 0) ≡ true → ltb_ℤ (pos 0) n ≡ false
stays n h = ground arith

divided :
    (legs : List LegFillSnapshot)
    → All IsOpenOrFlat legs
    → Perm
        (labels_where is_expired legs ++ labels_where is_surviving legs)
        (map (λ leg. leg.leg_label) legs)
divided [] h = Perm.rfl
divided (leg ∷ rest) h = elim (Bool-cases (is_expired leg)) [
  | inl e ↦ rw e (rw (stays leg.remaining_quantity e) (Perm.cons leg.leg_label (divided rest h.1)))
  | inr s ↦ rw s (
      rw (survives leg.remaining_quantity h.0 s) (
        Perm.trans (perm_middle (labels_where is_expired rest) (labels_where is_surviving rest))
          (Perm.cons leg.leg_label (divided rest h.1))))
]

-- Where no leg has a negative remainder, the labels of the expired and of the surviving legs
-- together are those of the legs of the position, each as often.
pub expiration-perm :
    (legs : List LegFillSnapshot)
    → All IsOpenOrFlat legs
    → let x = orchestrate_expiration legs in
      Perm (x.expired_legs ++ x.surviving_legs) (map (λ leg. leg.leg_label) legs)
unfolding orchestrate_expiration
expiration-perm legs h = divided legs h
