-- ===== src/Orchestration/Retries.antt =====
-- When partial fills are tried again (backend/backtesting/orchestration.py).
use option_research_platform.Base.{
  ◌≡◌, refl, ap, ◌∙◌, inl, inr, Bool, true, false, not, List, [], ◌∷◌, arith, All, ◌&&◌, ◌||◌,
  Bool-cases,
}
use option_research_platform.Base.Int.{
  ℤ, pos, pos_part, neg_part, ◌+ℤ◌, ◌≤ℤ◌, ◌<ℤ◌, max_ℤ, leb_ℤ, ltb_ℤ, int_laws,
}
use option_research_platform.Base.Value.{Amount, over, places}
use option_research_platform.Base.Shares.{ratio_lem}
use option_research_platform.Orchestration.{LegFillSnapshot, total_of}
use option_research_platform.Orchestration.Fills.{reconcile_partial_fills, ratio_of}

-- A leg that is filled in part, or in whole: what remains is what was asked for less what was filled.
pub record IsFilledInPart (leg : LegFillSnapshot) : Type 0 where
  pub filled : pos 0 ≤ℤ leg.filled_quantity
  pub remaining : pos 0 ≤ℤ leg.remaining_quantity
  pub whole : leg.filled_quantity +ℤ leg.remaining_quantity ≡ leg.original_quantity

-- Something remains of some leg.
abbrev pub any_remains : List LegFillSnapshot → Bool
any_remains [] = false
any_remains (leg ∷ legs) = ltb_ℤ (pos 0) leg.remaining_quantity || any_remains legs

abbrev asked : List LegFillSnapshot → ℤ
asked legs = total_of (λ item. max_ℤ (pos 0) item.original_quantity) legs

abbrev got : List LegFillSnapshot → ℤ
got legs = total_of (λ item. max_ℤ (pos 0) item.filled_quantity) legs

max_ℤ-nonneg : (a : ℤ) → pos 0 ≤ℤ a → max_ℤ (pos 0) a ≡ a
max_ℤ-nonneg a h = ground arith

ltb_ℤ-true : (a b : ℤ) → a <ℤ b → ltb_ℤ a b ≡ true
ltb_ℤ-true a b h = ground arith

ltb_ℤ-false : (a b : ℤ) → b ≤ℤ a → ltb_ℤ a b ≡ false
ltb_ℤ-false a b h = ground arith

ltb_ℤ→<ℤ : (a b : ℤ) → ltb_ℤ a b ≡ true → a <ℤ b
ltb_ℤ→<ℤ a b h = ground arith

ltb_ℤ→≤ℤ : (a b : ℤ) → ltb_ℤ a b ≡ false → b ≤ℤ a
ltb_ℤ→≤ℤ a b h = ground arith

-- A sum falls short where a leg or the rest does.
falls_short :
    (f r o F O : ℤ)
    → pos 0 ≤ℤ r
    → f +ℤ r ≡ o
    → F ≤ℤ O
    → ltb_ℤ (f +ℤ F) (o +ℤ O) ≡ (ltb_ℤ (pos 0) r || ltb_ℤ F O)
falls_short f r o F O h e k = elim (Bool-cases (ltb_ℤ (pos 0) r)) [
  | inl more ↦
      let m : pos 0 <ℤ r = ltb_ℤ→<ℤ (pos 0) r more in
      rw more (ltb_ℤ-true (f +ℤ F) (o +ℤ O) (omega (int_laws, ap pos_part e, ap neg_part e)))
  | inr none_left ↦
      let z : r ≤ℤ pos 0 = ltb_ℤ→≤ℤ (pos 0) r none_left in
      rw none_left (elim (Bool-cases (ltb_ℤ F O)) [
        | inl short ↦
            let m : F <ℤ O = ltb_ℤ→<ℤ F O short in
            rw short (ltb_ℤ-true (f +ℤ F) (o +ℤ O) (omega (int_laws, ap pos_part e, ap neg_part e)))
        | inr full ↦
            let m : O ≤ℤ F = ltb_ℤ→≤ℤ F O full in
            rw full (ltb_ℤ-false (f +ℤ F) (o +ℤ O) (omega (int_laws, ap pos_part e, ap neg_part e)))
      ])
]

sums :
    (legs : List LegFillSnapshot)
    → All IsFilledInPart legs
    → (pos 0 ≤ℤ got legs)
      × (got legs ≤ℤ asked legs)
      × (ltb_ℤ (got legs) (asked legs) ≡ any_remains legs)
sums [] h = (omega arith, omega arith, refl)
sums (leg ∷ legs) h =
    let (nonneg, below, same) = sums legs h.1 in
    let e : max_ℤ (pos 0) leg.filled_quantity ≡ leg.filled_quantity = max_ℤ-nonneg _ h.0.filled in
    let f : max_ℤ (pos 0) leg.original_quantity ≡ leg.original_quantity =
      max_ℤ-nonneg _ (
        omega
          (int_laws, ap pos_part h.0.whole, ap neg_part h.0.whole, h.0.filled, h.0.remaining)) in
    let g : got (leg ∷ legs) ≡ leg.filled_quantity +ℤ got legs = ap (λ x. x +ℤ got legs) e in
    let a : asked (leg ∷ legs) ≡ leg.original_quantity +ℤ asked legs =
      ap (λ x. x +ℤ asked legs) f in
    rw g (
      rw a (
        omega (int_laws, h.0.filled),
        omega (int_laws, ap pos_part h.0.whole, ap neg_part h.0.whole, h.0.remaining),
        falls_short leg.filled_quantity leg.remaining_quantity leg.original_quantity (got legs)
              (asked legs) h.0.remaining h.0.whole below
            ∙ rw same refl,
      ))

retry :
    (ratio minimum : Amount) (cancels out short : Bool)
    → ltb_ℤ ratio (pos places) ≡ short
    → (ltb_ℤ ratio (pos places) && (not (cancels && (ltb_ℤ ratio minimum && out)) && not out))
      ≡ (short && not out)
retry ratio minimum cancels out short h = ground arith

ratio_of-over : (filled total : ℤ) → pos 1 ≤ℤ total → ratio_of filled total ≡ over filled total
ratio_of-over filled total h = ground arith

-- Where some contract is asked for, and every leg has its filled and its remaining contracts, none of
-- them negative, which together are those asked for: the fill ratio lies between 0 and 1, and a retry is
-- possible exactly when something remains of some leg and the time is not over, whatever the minimum
-- ratio is and whether or not an incomplete fill is cancelled.
pub reconcile_partial_fills-retries :
    (leg_fills : List LegFillSnapshot) (minimum timeout elapsed : Amount) (cancels : Bool)
    → All IsFilledInPart leg_fills
    → pos 1 ≤ℤ total_of (λ item. max_ℤ (pos 0) item.original_quantity) leg_fills
    → let e = reconcile_partial_fills leg_fills minimum timeout elapsed cancels in
      (e.retry_eligible ≡ (any_remains leg_fills && not (leb_ℤ timeout elapsed)))
      × (pos 0 ≤ℤ e.strategy_fill_ratio)
      × (e.strategy_fill_ratio ≤ℤ pos places)
unfolding reconcile_partial_fills
reconcile_partial_fills-retries leg_fills minimum timeout elapsed cancels h some_asked =
    let (nonneg, below, same) = sums leg_fills h in
    let (low, high, short) = ratio_lem (got leg_fills) (asked leg_fills) nonneg below some_asked in
    rw (ratio_of-over (got leg_fills) (asked leg_fills) some_asked) (
      retry (over (got leg_fills) (asked leg_fills)) minimum cancels (leb_ℤ timeout elapsed)
          (any_remains leg_fills) (short ∙ same),
      low,
      high,
    )
