-- ===== src/Base/Sort.antt =====
-- Python's `sorted`: stable, by a total preorder. The result is sorted, holds the same elements,
-- and keeps elements that tie in the order in which they came.
use mathlib.Core.List.{Perm}
use mathlib.Core.List.Perm
use option_research_platform.Base.{
  ◌≡◌, refl, inl, inr, Bool, true, List, [], ◌∷◌, arith, if◌then◌else◌, All, select, Among,
  All-Among, All-self, All-weaken, Bool-cases, ◌&&◌,
}
use option_research_platform.Base.Order.{Preorder}

module _ {ℓ} {A : Type ℓ} (o : Preorder A) where
  -- Before the first element that is not smaller.
  abbrev pub insert_sorted : A → List A → List A
  insert_sorted x [] = x ∷ []
  insert_sorted x (y ∷ ys) = if o.le x y then x ∷ y ∷ ys else y ∷ insert_sorted x ys

  abbrev pub sorted : List A → List A
  sorted [] = []
  sorted (x ∷ xs) = insert_sorted x (sorted xs)

  abbrev pub IsSorted : List A → Type 0
  IsSorted [] = Unit
  IsSorted (x ∷ xs) = All (λ y. o.le x y ≡ true) xs × IsSorted xs

  -- Neither comes before the other.
  abbrev pub tied : A → A → Bool
  tied a b = o.le a b && o.le b a

  All-insert_sorted {κ} :
      (P : A → Type κ) (x : A) (ys : List A) → P x → All P ys → All P (insert_sorted x ys)
  All-insert_sorted P x [] p h = (p, tt)
  All-insert_sorted P x (y ∷ ys) p h = elim (Bool-cases (o.le x y)) [
    | inl e ↦ rw e (p, h)
    | inr e ↦ rw e (h.0, All-insert_sorted P x ys p h.1)
  ]

  insert_sorted-IsSorted : (x : A) (ys : List A) → IsSorted ys → IsSorted (insert_sorted x ys)
  insert_sorted-IsSorted x [] h = (tt, tt)
  insert_sorted-IsSorted x (y ∷ ys) h = elim (Bool-cases (o.le x y)) [
    | inl e ↦ rw e ((e, All-weaken _ _ ys (λ z yz. o.trans x y z e yz) h.0), h)
    | inr e ↦ rw e (
      All-insert_sorted _ x ys (ground (arith, o.total x y)) h.0,
      insert_sorted-IsSorted x ys h.1,
    )
  ]

  pub sorted-IsSorted : (xs : List A) → IsSorted (sorted xs)
  sorted-IsSorted [] = tt
  sorted-IsSorted (x ∷ xs) = insert_sorted-IsSorted x (sorted xs) (sorted-IsSorted xs)

  pub All-sorted {κ} : (P : A → Type κ) (xs : List A) → All P xs → All P (sorted xs)
  All-sorted P [] h = tt
  All-sorted P (x ∷ xs) h = All-insert_sorted P x (sorted xs) h.0 (All-sorted P xs h.1)

  insert_sorted-perm : (x : A) (ys : List A) → Perm (insert_sorted x ys) (x ∷ ys)
  insert_sorted-perm x [] = Perm.rfl
  insert_sorted-perm x (y ∷ ys) = elim (Bool-cases (o.le x y)) [
    | inl e ↦ rw e Perm.rfl
    | inr e ↦ rw e (Perm.trans (Perm.cons y (insert_sorted-perm x ys)) (Perm.swap x y ys))
  ]

  pub sorted-perm : (xs : List A) → Perm (sorted xs) xs
  sorted-perm [] = Perm.rfl
  sorted-perm (x ∷ xs) =
      Perm.trans (insert_sorted-perm x (sorted xs)) (Perm.cons x (sorted-perm xs))

  tied-insert_sorted :
      (k x : A) (ys : List A) → select (tied k) (insert_sorted x ys) ≡ select (tied k) (x ∷ ys)
  tied-insert_sorted k x [] = refl
  tied-insert_sorted k x (y ∷ ys) = ground (arith, tied-insert_sorted k x ys, o.trans x k y)

  -- Stability.
  pub tied-sorted : (k : A) (xs : List A) → select (tied k) (sorted xs) ≡ select (tied k) xs
  tied-sorted k [] = refl
  tied-sorted k (x ∷ xs) = ground (arith, tied-insert_sorted k x (sorted xs), tied-sorted k xs)

  All-of-insert_sorted {κ} :
      (P : A → Type κ) (x : A) (ys : List A) → All P (insert_sorted x ys) → P x × All P ys
  All-of-insert_sorted P x [] h = h
  All-of-insert_sorted P x (y ∷ ys) h = elim (Bool-cases (o.le x y)) [
    | inl e ↦ rw e at h
    | inr e ↦
        let whole : All P (y ∷ insert_sorted x ys) = rw e at h in
        let (px, rest) = All-of-insert_sorted P x ys whole.1 in (px, (whole.0, rest))
  ]

  pub All-of-sorted {κ} : (P : A → Type κ) (xs : List A) → All P (sorted xs) → All P xs
  All-of-sorted P [] h = tt
  All-of-sorted P (x ∷ xs) h =
      let (px, rest) = All-of-insert_sorted P x (sorted xs) h in (px, All-of-sorted P xs rest)

module _ {A : Type 0} (o : Preorder A) where
  -- The elements of the sorted list are those of the list.
  pub Among-of-sorted : (a : A) (xs : List A) → Among a (sorted o xs) → Among a xs
  Among-of-sorted a xs m =
      All-Among (λ x. Among x xs) (sorted o xs) a (All-sorted o (λ x. Among x xs) xs (All-self xs))
        m

  pub Among-sorted : (a : A) (xs : List A) → Among a xs → Among a (sorted o xs)
  Among-sorted a xs m =
      All-Among (λ x. Among x (sorted o xs)) xs a
        (All-of-sorted o (λ x. Among x (sorted o xs)) xs (All-self (sorted o xs))) m
