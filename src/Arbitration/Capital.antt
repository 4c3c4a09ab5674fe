-- ===== src/Arbitration/Capital.antt =====
-- `decide` of backend/backtesting/arbitration.py never hands out more capital than there is, and
-- turns nothing away that would still fit.
use option_research_platform.Base.{
  Among, Among-append_left, Among-append_self, true, false, List, [], ◌∷◌, ◌++◌, ◌≡◌, refl, ◌∙◌,
  ◌⊎◌, inl, inr, arith, All, Bool-cases,
}
use option_research_platform.Base.Int.{pos, ◌+ℤ◌, ◌≤ℤ◌, ◌<ℤ◌, leb_ℤ, leb_ℤ→≤ℤ, leb_ℤ→<ℤ, int_laws}
use option_research_platform.Base.Value.{Amount}
use option_research_platform.Base.Sort.{All-sorted, All-of-sorted}
use option_research_platform.Arbitration.{
  ArbitrationPolicy, CompetingAction, Allocation, policy_order, consider, allocate, start, decide,
  rank,
}

-- The capital that a list of actions needs.
abbrev pub total_required : List CompetingAction → Amount
total_required [] = pos 0
total_required (a ∷ rest) = a.required_capital +ℤ total_required rest

total_required-append :
    (xs : List CompetingAction) (a : CompetingAction)
    → total_required (xs ++ a ∷ []) ≡ total_required xs +ℤ a.required_capital
total_required-append [] a = omega int_laws
total_required-append (x ∷ xs) a = rw (total_required-append xs a) (omega int_laws)

consider_spends :
    (a : CompetingAction) (s : Allocation)
    → total_required (consider a s).accepted +ℤ (consider a s).remaining
      ≡ total_required s.accepted +ℤ s.remaining
unfolding consider
consider_spends a s = elim (Bool-cases (leb_ℤ a.required_capital s.remaining)) [
  | inl fits ↦ rw fits (rw (total_required-append s.accepted a) (omega int_laws))
  | inr short ↦ rw short
]

consider_nonneg :
    (a : CompetingAction) (s : Allocation)
    → pos 0 ≤ℤ s.remaining
    → pos 0 ≤ℤ (consider a s).remaining
unfolding consider
consider_nonneg a s h = elim (Bool-cases (leb_ℤ a.required_capital s.remaining)) [
  | inl fits ↦ rw fits (omega (int_laws, leb_ℤ→≤ℤ a.required_capital s.remaining fits))
  | inr short ↦ rw short h
]

allocate_spends :
    (queue : List CompetingAction) (s : Allocation)
    → total_required (allocate queue s).accepted +ℤ (allocate queue s).remaining
      ≡ total_required s.accepted +ℤ s.remaining
unfolding allocate
allocate_spends [] s = refl
allocate_spends (a ∷ rest) s = allocate_spends rest (consider a s) ∙ consider_spends a s

allocate_nonneg :
    (queue : List CompetingAction) (s : Allocation)
    → pos 0 ≤ℤ s.remaining
    → pos 0 ≤ℤ (allocate queue s).remaining
unfolding allocate
allocate_nonneg [] s h = h
allocate_nonneg (a ∷ rest) s h = allocate_nonneg rest (consider a s) (consider_nonneg a s h)

Among-consider :
    (x a : CompetingAction) (s : Allocation) → Among x s.accepted → Among x (consider a s).accepted
unfolding consider
Among-consider x a s m = elim (Bool-cases (leb_ℤ a.required_capital s.remaining)) [
  | inl fits ↦ rw fits (Among-append_left x s.accepted (a ∷ []) m)
  | inr short ↦ rw short m
]

consider_accepts :
    (a : CompetingAction) (s : Allocation)
    → leb_ℤ a.required_capital s.remaining ≡ true
    → Among a (consider a s).accepted
unfolding consider
consider_accepts a s fits = rw fits (Among-append_self a s.accepted)

consider_keeps :
    (a : CompetingAction) (s : Allocation)
    → leb_ℤ a.required_capital s.remaining ≡ false
    → (consider a s).remaining ≤ℤ s.remaining
unfolding consider
consider_keeps a s short = rw short (omega arith)

consider_falls :
    (a : CompetingAction) (s : Allocation)
    → pos 0 ≤ℤ a.required_capital
    → (consider a s).remaining ≤ℤ s.remaining
unfolding consider
consider_falls a s h = elim (Bool-cases (leb_ℤ a.required_capital s.remaining)) [
  | inl fits ↦ rw fits (omega int_laws)
  | inr short ↦ rw short (omega arith)
]

Among-allocate :
    (x : CompetingAction) (queue : List CompetingAction) (s : Allocation)
    → Among x s.accepted
    → Among x (allocate queue s).accepted
unfolding allocate
Among-allocate x [] s m = m
Among-allocate x (a ∷ rest) s m = Among-allocate x rest (consider a s) (Among-consider x a s m)

-- Where no action needs a negative amount, the capital that remains only falls.
abbrev pub NeedsNone : CompetingAction → Type 0
NeedsNone a = pos 0 ≤ℤ a.required_capital

allocate_falls :
    (queue : List CompetingAction) (s : Allocation)
    → All NeedsNone queue
    → (allocate queue s).remaining ≤ℤ s.remaining
unfolding allocate
allocate_falls [] s h = omega arith
allocate_falls (a ∷ rest) s h =
    omega (arith, allocate_falls rest (consider a s) h.1, consider_falls a s h.0)

-- Accepted, or dearer than what is left at the end.
abbrev pub IsSettled : Allocation → CompetingAction → Type 0
IsSettled final a = Among a final.accepted ⊎ (final.remaining <ℤ a.required_capital)

consider_settles :
    (a : CompetingAction) (rest : List CompetingAction) (s : Allocation)
    → All NeedsNone rest
    → IsSettled (allocate rest (consider a s)) a
consider_settles a rest s h = elim (Bool-cases (leb_ℤ a.required_capital s.remaining)) [
  | inl fits ↦ inl (Among-allocate a rest (consider a s) (consider_accepts a s fits))
  | inr short ↦ inr (
      omega (
        arith,
        allocate_falls rest (consider a s) h,
        consider_keeps a s short,
        leb_ℤ→<ℤ a.required_capital s.remaining short,
      ))
]

allocate_settles :
    (queue : List CompetingAction) (s : Allocation)
    → All NeedsNone queue
    → All (IsSettled (allocate queue s)) queue
unfolding allocate
allocate_settles [] s h = tt
allocate_settles (a ∷ rest) s h =
    (consider_settles a rest s h.1, allocate_settles rest (consider a s) h.1)

-- The accepted actions need exactly what the remaining capital is short of the available, and
-- with a nonnegative available capital the remaining capital is not negative: under no policy is
-- more handed out than there is.
pub decide_spends :
    (policy : ArbitrationPolicy) (actions : List CompetingAction) (available : Amount)
    → pos 0 ≤ℤ available
    → let d = decide policy actions available in
      (total_required d.accepted_actions +ℤ d.remaining_capital ≡ available)
      × (pos 0 ≤ℤ d.remaining_capital)
unfolding decide
decide_spends policy actions available h = (
  allocate_spends (rank policy actions) (start available) ∙ omega int_laws,
  allocate_nonneg (rank policy actions) (start available) h,
)

-- Where no action needs a negative amount, every competing action is accepted or needs more than
-- the capital that remains at the end: nothing that would still fit is turned away.
pub decide_leaves_nothing :
    (policy : ArbitrationPolicy) (actions : List CompetingAction) (available : Amount)
    → All NeedsNone actions
    → let d = decide policy actions available in
      All (λ a. Among a d.accepted_actions ⊎ (d.remaining_capital <ℤ a.required_capital)) actions
unfolding decide
decide_leaves_nothing policy actions available h = All-of-sorted (policy_order policy) _ actions (
    allocate_settles (rank policy actions) (start available)
      (All-sorted (policy_order policy) NeedsNone actions h))
