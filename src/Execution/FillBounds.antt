-- ===== src/Execution/FillBounds.antt =====
-- What `fill` of backend/backtesting/fill_models.py fills: between nothing and the request, whole or
-- nothing where that is asked for, and not less than the minimum.
use text.Mathlib.Text.{◌==◌ as str_eq}
use option_research_platform.Base.{
  ◌≡◌, refl, ◌⊎◌, inl, inr, Bool, true, false, not, String, Option, none, some, is_some, arith,
  if◌then◌else◌, Bool-cases, ◌&&◌, ◌||◌,
}
use option_research_platform.Base.Int.{
  ℤ, pos, ◌+ℤ◌, ◌-ℤ◌, ◌≤ℤ◌, ◌<ℤ◌, max_ℤ, min_ℤ, eqb_ℤ, ltb_ℤ, int_laws,
}
use option_research_platform.Base.Value.{Amount, places, times_share}
use option_research_platform.Quotes.{Quote, QuoteSelectionResult}
use option_research_platform.Execution.{ExecutionRequest, entry}
use option_research_platform.Execution.Fills.{
  FillEngine, FillModelResult, fill, fill_at, filled_of, ratio_fill, minimum_fill, all_or_none,
  reason_of, mode_of, no_fill,
}

-- What may be filled of a request: nothing, or at most the quantity, at least the minimum, and all
-- of it where the request is for all or none.
abbrev pub MayFill : ExecutionRequest → ℤ → Type 0
MayFill r n =
    (n ≡ pos 0)
    ⊎ ((pos 0 <ℤ n)
        × (n ≤ℤ max_ℤ (pos 0) r.quantity)
        × (r.minimum_fill_quantity ≤ℤ n)
        × ((r.all_or_none_research ≡ false) ⊎ (n ≡ max_ℤ (pos 0) r.quantity)))

clamp_bounds :
    (a : Amount) → let c = max_ℤ (pos 0) (min_ℤ (pos places) a) in (pos 0 ≤ℤ c) × (c ≤ℤ pos places)
clamp_bounds a = ground arith

ratio_fill_bounds :
    (r : ExecutionRequest) → (pos 0 ≤ℤ ratio_fill r) × (ratio_fill r ≤ℤ max_ℤ (pos 0) r.quantity)
ratio_fill_bounds r =
    let c = clamp_bounds (entry (pos places) r.fill_model_policy.fill_ratio) in
    times_share _ (max_ℤ (pos 0) r.quantity) c.0 c.1 (ground arith)

and_false : (b : Bool) → (b && false) ≡ false
and_false true = refl
and_false false = refl

or_true : (b : Bool) → (b || true) ≡ true
or_true true = refl
or_true false = refl

eqb_eq : (a b : ℤ) → eqb_ℤ a b ≡ true → a ≡ b
eqb_eq a b h = ground arith

minimum_fill_lem :
    (r : ExecutionRequest) (n : ℤ)
    → pos 0 ≤ℤ n
    → (minimum_fill r n ≡ pos 0)
      ⊎ ((minimum_fill r n ≡ n) × (pos 0 <ℤ n) × (r.minimum_fill_quantity ≤ℤ n))
minimum_fill_lem r n h = elim (Bool-cases (eqb_ℤ n (pos 0))) [
  | inl z ↦ rw z (inl (eqb_eq n (pos 0) z))
  | inr nz ↦ elim (Bool-cases (ltb_ℤ n (max_ℤ (pos 0) r.minimum_fill_quantity))) [
    | inl few ↦ rw nz (rw few (inl refl))
    | inr enough ↦ rw nz (rw enough (inr (refl, ground arith, ground arith)))
  ]
]

all_or_none_lem :
    (r : ExecutionRequest) (n : ℤ)
    → (all_or_none r n ≡ pos 0)
      ⊎ ((all_or_none r n ≡ n)
          × ((r.all_or_none_research ≡ false) ⊎ (n ≡ max_ℤ (pos 0) r.quantity)))
all_or_none_lem r n = elim (Bool-cases (eqb_ℤ n (pos 0))) [
  | inl z ↦ rw z (rw (and_false r.all_or_none_research) (inl (eqb_eq n (pos 0) z)))
  | inr nz ↦ elim (Bool-cases (eqb_ℤ n (max_ℤ (pos 0) r.quantity))) [
    | inl all ↦
        inr (rw all (simp (or_true, and_false) refl), inr (eqb_eq n (max_ℤ (pos 0) r.quantity) all))
    | inr part ↦ elim (Bool-cases r.all_or_none_research) [
      | inl aon ↦ rw nz (rw part (rw aon (inl refl)))
      | inr free ↦ rw free (inr (refl, inl refl))
    ]
  ]
]

none_of_nothing : (r : ExecutionRequest) → all_or_none r (pos 0) ≡ pos 0
none_of_nothing r = simp and_false refl

restricted :
    (r : ExecutionRequest) (n : ℤ)
    → pos 0 ≤ℤ n
    → n ≤ℤ max_ℤ (pos 0) r.quantity
    → MayFill r (all_or_none r (minimum_fill r n))
restricted r n h k = elim (minimum_fill_lem r n h) [
  | inl z ↦ rw z (inl (none_of_nothing r))
  | inr m ↦
      rw m.0
        (elim (all_or_none_lem r n) [ inl w ↦ inl w | inr w ↦ inr (rw w.0 (m.1, k, m.2, w.1)) ])
]

filled_of-MayFill : (r : ExecutionRequest) (mode : String) → MayFill r (filled_of r mode)
unfolding filled_of
filled_of-MayFill r mode = elim (Bool-cases (str_eq mode "no_fill")) [
  | inl off ↦ rw off (inl refl)
  | inr on ↦ rw on (restricted r (ratio_fill r) (ratio_fill_bounds r).0 (ratio_fill_bounds r).1)
]

zero_reason :
    (r : ExecutionRequest) {n : ℤ}
    → MayFill r n
    → is_some {A = String} (if eqb_ℤ n (pos 0) then some "insufficient_liquidity" else none)
      ≡ not (ltb_ℤ (pos 0) n)
zero_reason r (inl z) = rw z refl
zero_reason r (inr m) = let filled = m.0 in ground arith

reason_lem :
    (r : ExecutionRequest) (mode : String)
    → is_some (reason_of mode (filled_of r mode)) ≡ not (ltb_ℤ (pos 0) (filled_of r mode))
unfolding filled_of
reason_lem r mode = elim (Bool-cases (str_eq mode "no_fill")) [
  | inl off ↦ rw off refl
  | inr on ↦
      rw on (
        zero_reason r (restricted r (ratio_fill r) (ratio_fill_bounds r).0 (ratio_fill_bounds r).1))
]

is_some_if : (b : Bool) (a : Amount) → is_some (if b then some a else none) ≡ b
is_some_if true a = refl
is_some_if false a = refl

rest_of : (q n : ℤ) → pos 0 ≤ℤ q → n ≤ℤ q → n +ℤ max_ℤ (pos 0) (max_ℤ (pos 0) q -ℤ n) ≡ q
rest_of q n h k = grind int_laws

-- What every fill keeps.
abbrev pub KeepsBounds : ExecutionRequest → FillModelResult → Type 0
KeepsBounds r f =
    MayFill r f.filled_quantity
    × (f.filled_quantity +ℤ f.remaining_quantity ≡ r.quantity)
    × (is_some f.fill_price ≡ ltb_ℤ (pos 0) f.filled_quantity)
    × (is_some f.failure_reason ≡ not (ltb_ℤ (pos 0) f.filled_quantity))

MayFill-lower : (r : ExecutionRequest) (n : ℤ) → MayFill r n → pos 0 ≤ℤ n
MayFill-lower r n (inl z) = rw z (omega arith)
MayFill-lower r n (inr m) = let filled = m.0 in omega arith

MayFill-upper : (r : ExecutionRequest) (n : ℤ) → pos 0 ≤ℤ r.quantity → MayFill r n → n ≤ℤ r.quantity
MayFill-upper r n h (inl z) = rw z h
MayFill-upper r n h (inr m) = let at_most = m.1 in ground arith

fill_at_bounds :
    (engine : FillEngine) (r : ExecutionRequest) (mode : String) (selection : QuoteSelectionResult)
    → (quote : Quote) (price : Amount) → pos 0 ≤ℤ r.quantity
    → KeepsBounds r (fill_at engine r mode selection quote price)
unfolding fill_at
fill_at_bounds engine r mode selection quote price h =
    let fits = filled_of-MayFill r mode in
    (
      fits,
      rest_of r.quantity (filled_of r mode) h (MayFill-upper r (filled_of r mode) h fits),
      is_some_if _ _,
      reason_lem r mode,
    )

priced_bounds :
    (engine : FillEngine) (r : ExecutionRequest) (quote : Quote) (selection : QuoteSelectionResult)
    → (policy_name : String) → pos 0 ≤ℤ r.quantity
    → (price : Option Amount)
    → KeepsBounds r (elim price [
      | none ↦
          no_fill r (mode_of r policy_name) quote.timestamp "price_unavailable" "price_unavailable"
      | some p ↦ fill_at engine r (mode_of r policy_name) selection quote p
    ])
priced_bounds engine r quote selection policy_name h none = (inl refl, omega int_laws, refl, refl)
priced_bounds engine r quote selection policy_name h (some p) =
    fill_at_bounds engine r (mode_of r policy_name) selection quote p h

-- A fill of a request for no negative quantity is nothing, or at most the quantity, at least the
-- minimum, and all of it where the request is for all or none; what is filled and what remains make
-- up the quantity; and there is a price, and no failure, exactly when something is filled.
pub fill_bounds :
    (engine : FillEngine) (r : ExecutionRequest) (quote : Option Quote)
    → (selection : QuoteSelectionResult) → (policy_name : String) → pos 0 ≤ℤ r.quantity
    → KeepsBounds r (fill engine r quote selection policy_name)
unfolding fill
fill_bounds engine r none selection policy_name h = (inl refl, omega int_laws, refl, refl)
fill_bounds engine r (some quote) selection policy_name h =
    priced_bounds engine r quote selection policy_name h selection.selected_price

pub fill_range :
    (engine : FillEngine) (r : ExecutionRequest) (quote : Option Quote)
    → (selection : QuoteSelectionResult) → (policy_name : String) → pos 0 ≤ℤ r.quantity
    → let f = fill engine r quote selection policy_name in
      (pos 0 ≤ℤ f.filled_quantity)
      × (f.filled_quantity ≤ℤ r.quantity)
      × (f.filled_quantity +ℤ f.remaining_quantity ≡ r.quantity)
fill_range engine r quote selection policy_name h =
    let b = fill_bounds engine r quote selection policy_name h in
    (MayFill-lower r _ b.0, MayFill-upper r _ h b.0, b.1)
