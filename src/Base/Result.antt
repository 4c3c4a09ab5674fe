-- ===== src/Base/Result.antt =====
-- A call that may raise, as a value, and methods that change an object and may raise: what was
-- written before a raise stays written, so the state comes back beside the error too.
use option_research_platform.Base.{Bool, true, false, ◌≡◌, ◌≢◌, refl, ◌⊎◌, inl, inr}

pub data Result (E A : Type 0) : Type 0 where
  ok : A → Result E A
  err : E → Result E A

module _ {E A B : Type 0} where
  infixl 5 ◌>>=◌
  abbrev pub ◌>>=◌ : Result E A → (A → Result E B) → Result E B
  ok a >>= f = f a
  err e >>= f = err e

abbrev pub Action : Type 0 → Type 0 → Type 0 → Type 0
Action E S A = S → Result E A × S

module _ {E S : Type 0} where
  -- `if condition: raise error`
  abbrev pub raise_if : Bool → E → Action E S (Unit {0})
  raise_if true e s = (err e, s)
  raise_if false e s = (ok tt, s)

module _ {E S A B : Type 0} where
  abbrev pub continue : Result E A × S → (A → Action E S B) → Result E B × S
  continue (ok a, s) f = f a s
  continue (err e, s) f = (err e, s)

  -- `m; f(result)`
  abbrev pub and_then : Action E S A → (A → Action E S B) → Action E S B
  and_then m f s = continue (m s) f

module _ {E A : Type 0} where
  pub Result-cases : (r : Result E A) → ((a : A) × (r ≡ ok a)) ⊎ ((e : E) × (r ≡ err e))
  Result-cases (ok a) = inl (a, refl)
  Result-cases (err e) = inr (e, refl)

module _ {A B : Type 0} where
  pub pair_of : {p : A × B} {a : A} {b : B} → p.0 ≡ a → p.1 ≡ b → p ≡ (a, b)
  pair_of h k = λ i. (h i, k i)

module _ {E A : Type 0} where
  pub ok-injective : {a b : A} → ◌≡◌ {A = Result E A} (ok a) (ok b) → a ≡ b
  ok-injective h = cc

module _ {E A B : Type 0} where
  -- A chain that returns has a first part that returned.
  pub >>=-eq-ok :
      (r : Result E A) (f : A → Result E B) {b : B}
      → (r >>= f) ≡ ok b
      → (a : A) × (r ≡ ok a) × (f a ≡ ok b)
  >>=-eq-ok (ok a) f h = (a, refl, h)
  >>=-eq-ok (err e) f h = cc

module _ {E A : Type 0} where
  pub err≢ok : {e : E} {a : A} → ◌≢◌ {A = Result E A} (err e) (ok a)
  err≢ok h = cc
