-- ===== src/Arbitration/Fairness.antt =====
-- `decide` of backend/backtesting/arbitration.py settles every action once, and accepts in the
-- order of the policy.
use mathlib.Core.List.{Perm, perm_middle, map-append, append_assoc, append-nil}
use mathlib.Core.List.Perm
use option_research_platform.Base.{
  Bool, true, String, List, [], ◌∷◌, ◌++◌, map, ◌≡◌, ◌⊎◌, inl, inr, All, All-append, All-weaken,
  Bool-cases,
}
use option_research_platform.Base.Int.{leb_ℤ}
use option_research_platform.Base.Value.{Amount}
use option_research_platform.Base.Order.{Preorder}
use option_research_platform.Base.Sort.{IsSorted, sorted-IsSorted, sorted-perm}
use option_research_platform.Arbitration.{
  ArbitrationPolicy, CompetingAction, Rejection, Allocation, policy_order, consider, allocate,
  start, decide, rank,
}

abbrev pub ids : List CompetingAction → List String
ids = map (λ a. a.action_id)

abbrev pub rejected_ids : List Rejection → List String
rejected_ids = map (λ r. r.action_id)

abbrev settled_ids : Allocation → List String
settled_ids s = ids s.accepted ++ rejected_ids s.rejected

consider-perm :
    (a : CompetingAction) (s : Allocation)
    → Perm (settled_ids (consider a s)) (a.action_id ∷ settled_ids s)
unfolding consider
consider-perm a s = elim (Bool-cases (leb_ℤ a.required_capital s.remaining)) [
  | inl fits ↦
      rw fits
        (simp (map-append, append_assoc) (perm_middle (ids s.accepted) (rejected_ids s.rejected)))
  | inr short ↦ rw short (
      simp (map-append, ← append_assoc)
        (Perm.trans (perm_middle (settled_ids s) []) (rw append-nil Perm.rfl)))
]

allocate-perm :
    (queue : List CompetingAction) (s : Allocation)
    → Perm (settled_ids (allocate queue s)) (ids queue ++ settled_ids s)
unfolding allocate
allocate-perm [] s = Perm.rfl
allocate-perm (a ∷ rest) s = Perm.trans (allocate-perm rest (consider a s)) (
    Perm.trans (Perm.append_left (ids rest) (consider-perm a s))
      (perm_middle (ids rest) (settled_ids s)))

decide-perm :
    (policy : ArbitrationPolicy) (actions : List CompetingAction) (available : Amount)
    → let d = decide policy actions available in
      Perm (ids d.accepted_actions ++ rejected_ids d.rejected_actions) (ids actions)
unfolding decide
decide-perm policy actions available =
    Perm.trans (allocate-perm (rank policy actions) (start available))
      (rw append-nil (Perm.map (λ a. a.action_id) (sorted-perm (policy_order policy) actions)))

module _ {A : Type 0} (o : Preorder A) where
  IsSorted-append :
      (xs : List A) (a : A)
      → IsSorted o xs
      → All (λ x. o.le x a ≡ true) xs
      → IsSorted o (xs ++ a ∷ [])
  IsSorted-append [] a h k = (tt, tt)
  IsSorted-append (x ∷ xs) a h k =
      (All-append (λ y. o.le x y ≡ true) xs (a ∷ []) h.0 (k.0, tt), IsSorted-append xs a h.1 k.1)

consider_cases :
    (a : CompetingAction) (s : Allocation)
    → ((consider a s).accepted ≡ s.accepted ++ a ∷ []) ⊎ ((consider a s).accepted ≡ s.accepted)
unfolding consider
consider_cases a s = elim (Bool-cases (leb_ℤ a.required_capital s.remaining)) [
  | inl fits ↦ inl (rw fits)
  | inr short ↦ inr (rw short)
]

module _ (policy : ArbitrationPolicy) where
  abbrev ranks : CompetingAction → CompetingAction → Bool
  ranks = (policy_order policy).le

  -- No accepted action ranks behind one that is still to come.
  abbrev Leads : List CompetingAction → List CompetingAction → Type 0
  Leads done queue = All (λ x. All (λ a. ranks x a ≡ true) queue) done

  allocate-IsSorted :
      (queue : List CompetingAction) (s : Allocation)
      → IsSorted (policy_order policy) queue
      → IsSorted (policy_order policy) s.accepted
      → Leads s.accepted queue
      → IsSorted (policy_order policy) (allocate queue s).accepted
  unfolding allocate
  allocate-IsSorted [] s q h l = h
  allocate-IsSorted (a ∷ rest) s q h l =
      let later : Leads s.accepted rest = All-weaken _ _ s.accepted (λ x k. k.1) l in
      elim (consider_cases a s) [
        | inl e ↦
            allocate-IsSorted rest (consider a s) q.1
              (rw e (
                IsSorted-append (policy_order policy) s.accepted a h
                  (All-weaken _ _ s.accepted (λ x k. k.0) l)))
              (rw e (
                All-append (λ x. All (λ b. ranks x b ≡ true) rest) s.accepted (a ∷ []) later
                  (q.0, tt)))
        | inr e ↦ allocate-IsSorted rest (consider a s) q.1 (rw e h) (rw e later)
      ]

  decide-IsSorted :
      (actions : List CompetingAction) (available : Amount)
      → IsSorted (policy_order policy) (decide policy actions available).accepted_actions
  unfolding decide
  decide-IsSorted actions available =
      allocate-IsSorted (rank policy actions) (start available)
        (sorted-IsSorted (policy_order policy) actions) tt tt

-- Every competing action is settled exactly once: the identifiers of the accepted and of the
-- rejected actions together are those of the competing ones, each as often. The accepted actions
-- come in the order of the policy.
pub decide_fairly :
    (policy : ArbitrationPolicy) (actions : List CompetingAction) (available : Amount)
    → let d = decide policy actions available in
      Perm (ids d.accepted_actions ++ rejected_ids d.rejected_actions) (ids actions)
      × IsSorted (policy_order policy) d.accepted_actions
decide_fairly policy actions available =
    (decide-perm policy actions available, decide-IsSorted policy actions available)
