-- ===== src/Orchestration/Integrity.antt =====
-- What the absence of integrity failures means (backend/backtesting/orchestration.py).
use option_research_platform.Base.{
  ◌≡◌, refl, Bool, true, false, String, Option, none, some, List, [], ◌∷◌, ◌++◌, map, All, arith,
  ◌&&◌,
}
use option_research_platform.Base.Int.{pos, ◌≤ℤ◌, ltb_ℤ, eqb_ℤ, int_laws}
use option_research_platform.Base.Value.{Amount}
use option_research_platform.Orchestration.{
  LegFillSnapshot, total_of, failure_if, has_duplicate, leg_failures, failures_of_legs,
  integrity_failures,
}

append_empty : {A : Type 0} (xs ys : List A) → (xs ++ ys) ≡ [] → (xs ≡ []) × (ys ≡ [])
append_empty [] ys h = (refl, h)
append_empty (x ∷ xs) ys h = cc

no_failure :
    (b : Bool) (code : String) (label : Option String) → failure_if b code label ≡ [] → b ≡ false
no_failure true code label h = cc
no_failure false code label h = refl

abbrev pub IsOpenOrFlat : LegFillSnapshot → Type 0
IsOpenOrFlat leg = pos 0 ≤ℤ leg.remaining_quantity

sound_legs : (legs : List LegFillSnapshot) → failures_of_legs legs ≡ [] → All IsOpenOrFlat legs
sound_legs [] h = tt
sound_legs (leg ∷ rest) h =
    let parts = append_empty (leg_failures leg) (failures_of_legs rest) h in
    let own =
      append_empty
        (failure_if (ltb_ℤ leg.remaining_quantity (pos 0)) "negative_remaining_quantity"
          (some leg.leg_label))
        _ parts.0 in
    let positive = no_failure _ _ _ own.0 in (ground arith, sound_legs rest parts.1)

abbrev pub IsFlat : LegFillSnapshot → Type 0
IsFlat leg = leg.remaining_quantity ≡ pos 0

total_nonneg :
    (legs : List LegFillSnapshot)
    → All IsOpenOrFlat legs
    → pos 0 ≤ℤ total_of (λ leg. leg.remaining_quantity) legs
total_nonneg [] h = omega arith
total_nonneg (leg ∷ rest) h = omega (int_laws, h.0, total_nonneg rest h.1)

legs-IsFlat :
    (legs : List LegFillSnapshot)
    → All IsOpenOrFlat legs
    → total_of (λ leg. leg.remaining_quantity) legs ≤ℤ pos 0
    → All IsFlat legs
legs-IsFlat [] h k = tt
legs-IsFlat (leg ∷ rest) h k = (
  omega (int_laws, h.0, total_nonneg rest h.1, k),
  legs-IsFlat rest h.1 (omega (int_laws, h.0, k)),
)

-- A closed position without integrity failures has distinct legs, none of which has anything
-- remaining, and its cash agrees with the expected cash to six places.
pub closed_position-IsFlat :
    (round_six : Amount → Amount) (legs : List LegFillSnapshot) (balance expected : Amount)
    → integrity_failures round_six "closed" legs balance expected ≡ []
    → (has_duplicate (map (λ leg. leg.leg_label) legs) ≡ false)
      × All IsFlat legs
      × (eqb_ℤ (round_six balance) (round_six expected) ≡ true)
unfolding integrity_failures
closed_position-IsFlat round_six legs balance expected h =
    let first =
      append_empty
        (failure_if (has_duplicate (map (λ leg. leg.leg_label) legs))
          "duplicate_active_leg_identifier" none)
        _ h in
    let second = append_empty (failures_of_legs legs) _ first.1 in
    let third =
      append_empty
        (failure_if (true && ltb_ℤ (pos 0) (total_of (λ leg. leg.remaining_quantity) legs))
          "position_closed_with_open_legs" none)
        _ second.1 in
    let sound = sound_legs legs second.0 in
    let none_left = no_failure _ _ _ third.0 in
    let agrees = no_failure _ _ _ third.1 in
    (no_failure _ _ _ first.0, legs-IsFlat legs sound (ground arith), ground arith)
