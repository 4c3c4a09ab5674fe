-- ===== src/Settlement/Deliveries.antt =====
-- What a settlement of backend/backtesting/settlement.py delivers, by the contracts that it leaves.
use option_research_platform.Base.{
  ◌≡◌, refl, ap, sym, ◌∙◌, inl, inr, Bool, true, false, Option, none, some, arith, if◌then◌else◌,
  Bool-cases, not, ◌⊎◌,
}
use option_research_platform.Base.Int.{
  ℤ, sign_laws, ◌*ℤ◌, neg, abs_ℤ, pos, ◌+ℤ◌, ◌-ℤ◌, ◌≤ℤ◌, max_ℤ, int_laws,
}
use option_research_platform.Base.Value.{truncate}
use option_research_platform.Settlement.Decisions.{is_call, is_cash}
use option_research_platform.Settlement.Postings.{
  SettlementRequest, SettlementResult, settled_result, held, worthless, sign, cash_move, shares_of,
  sum_amounts,
}

abbrev pub outcome_of : SettlementRequest → Option ℤ → SettlementResult
outcome_of r none = worthless r
outcome_of r (some k) = settled_result r k

abbrev pub contracts_of : Option ℤ → ℤ
contracts_of none = pos 0
contracts_of (some k) = k

-- What a position of `held` contracts, of which `left` are left, delivers and pays: the shares of the
-- others in its direction, a call's holder and a put's writer receiving them, and their price; in cash
-- the intrinsic value of all contracts held.
abbrev pub direction : Bool → Bool → ℤ
direction true long = sign long
direction false long = sign (not long)

abbrev pub delivered : SettlementRequest → ℤ → ℤ
delivered r left =
    truncate ((held r -ℤ left) *ℤ r.multiplier) *ℤ direction (is_call r.metadata) r.is_long

pub record IsDelivered (r : SettlementRequest) (s : SettlementResult) : Type 0 where
  pub shares :
      s.stock_position_change
      ≡ (if is_cash r.metadata then pos 0 else delivered r s.residual_contracts)
  pub cash :
      s.realized_pnl
      ≡ (if is_cash r.metadata
          then cash_move r
          else neg (r.strike *ℤ delivered r s.residual_contracts))
        -ℤ abs_ℤ r.fees

-- Nothing happens, and every contract is left.
pub record IsLeft (r : SettlementRequest) (s : SettlementResult) : Type 0 where
  pub shares : s.stock_position_change ≡ pos 0
  pub cash : s.realized_pnl ≡ pos 0
  pub contracts : s.residual_contracts ≡ held r

left_of : (a n : ℤ) → pos 0 ≤ℤ n → n ≤ℤ a → a -ℤ max_ℤ (pos 0) (a -ℤ n) ≡ n
left_of a n h k = grind int_laws

directed :
    (x : ℤ)
    → (call long : Bool)
    → (if call then x *ℤ sign long else neg x *ℤ sign long) ≡ x *ℤ direction call long
directed x true long = refl
directed x false true = simp sign_laws refl
directed x false false = simp sign_laws refl

paid :
    (s x : ℤ)
    → (call long : Bool)
    → (if call then neg s *ℤ x *ℤ sign long else s *ℤ x *ℤ sign long)
      ≡ neg (s *ℤ (x *ℤ direction call long))
paid s x true true = simp sign_laws refl
paid s x true false = simp sign_laws refl
paid s x false true = simp sign_laws refl
paid s x false false = simp sign_laws refl

last_two : (c d f : ℤ) → c ≡ d → pos 0 +ℤ pos 0 +ℤ c +ℤ neg f ≡ d -ℤ f
last_two c d f h = ap (λ x. pos 0 +ℤ pos 0 +ℤ x +ℤ neg f) h ∙ omega int_laws

settled_lem :
    (r : SettlementRequest)
    → (n : ℤ) → pos 0 ≤ℤ n
    → n ≤ℤ held r
    → IsDelivered r (settled_result r n)
unfolding settled_result sum_amounts shares_of
settled_lem r n h k = elim (Bool-cases (is_cash r.metadata)) [
  | inl c ↦ record { shares = rw c refl; cash = rw c (omega int_laws) }
  | inr c ↦
      let d : truncate (n *ℤ r.multiplier) *ℤ direction (is_call r.metadata) r.is_long
          ≡ delivered r (max_ℤ (pos 0) (held r -ℤ n)) =
        ap (λ m. truncate (m *ℤ r.multiplier) *ℤ direction (is_call r.metadata) r.is_long)
          (sym (left_of (held r) n h k)) in
      record {
        shares = rw c (directed (truncate (n *ℤ r.multiplier)) (is_call r.metadata) r.is_long ∙ d);
        cash = rw c (
            last_two _ _ _ (
              paid r.strike (truncate (n *ℤ r.multiplier)) (is_call r.metadata) r.is_long
              ∙ ap (λ x. neg (r.strike *ℤ x)) d));
      }
]

pub outcome_of-conserves :
    (r : SettlementRequest)
    → (o : Option ℤ) → pos 0 ≤ℤ contracts_of o
    → contracts_of o ≤ℤ held r
    → (pos 0 ≤ℤ (outcome_of r o).residual_contracts)
      × ((outcome_of r o).residual_contracts ≤ℤ held r)
      × (IsLeft r (outcome_of r o) ⊎ IsDelivered r (outcome_of r o))
unfolding settled_result
outcome_of-conserves r none h k =
    (ground arith, omega arith, inl (record { shares = refl; cash = refl; contracts = refl }))
outcome_of-conserves r (some n) h k = (grind int_laws, grind int_laws, inr (settled_lem r n h k))
