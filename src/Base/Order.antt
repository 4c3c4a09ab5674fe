-- ===== src/Base/Order.antt =====
-- Total preorders as Boolean tests: the keys by which the program sorts. A sort by a tuple of keys
-- is a `lexical` order of two orders.
use option_research_platform.Base.{
  ℕ, ◌≡◌, refl, ◌⊎◌, inl, inr, Bool, true, false, arith, leb, if◌then◌else◌,
}
use option_research_platform.Base.Int.{ℤ, leb_ℤ}

pub record Preorder {ℓ} (A : Type ℓ) : Type ℓ where
  pub le : A → A → Bool
  pub total : (a b : A) → (le a b ≡ true) ⊎ (le b a ≡ true)
  pub trans : (a b c : A) → le a b ≡ true → le b c ≡ true → le a c ≡ true

pub leb_total : (a b : ℕ) → (leb a b ≡ true) ⊎ (leb b a ≡ true)
leb_total a b = grind arith

pub leb_trans : (a b c : ℕ) → leb a b ≡ true → leb b c ≡ true → leb a c ≡ true
leb_trans a b c h k = ground arith

abbrev pub nat_order : Preorder ℕ
nat_order = record { le = leb; total = leb_total; trans = leb_trans }

pub leb_ℤ_total : (a b : ℤ) → (leb_ℤ a b ≡ true) ⊎ (leb_ℤ b a ≡ true)
leb_ℤ_total a b = grind arith

pub leb_ℤ_trans : (a b c : ℤ) → leb_ℤ a b ≡ true → leb_ℤ b c ≡ true → leb_ℤ a c ≡ true
leb_ℤ_trans a b c h k = ground arith

abbrev pub int_order : Preorder ℤ
int_order = record { le = leb_ℤ; total = leb_ℤ_total; trans = leb_ℤ_trans }

-- False before true.
abbrev pub bool_le : Bool → Bool → Bool
bool_le false b = true
bool_le true b = b

pub bool_le_total : (a b : Bool) → (bool_le a b ≡ true) ⊎ (bool_le b a ≡ true)
bool_le_total false b = inl refl
bool_le_total true false = inr refl
bool_le_total true true = inl refl

pub bool_le_trans : (a b c : Bool) → bool_le a b ≡ true → bool_le b c ≡ true → bool_le a c ≡ true
bool_le_trans a b c h k = ground arith

abbrev pub bool_order : Preorder Bool
bool_order = record { le = bool_le; total = bool_le_total; trans = bool_le_trans }

module _ {ℓ κ} {A : Type ℓ} {B : Type κ} where
  -- `key=f`
  abbrev pub by_key : (A → B) → Preorder B → Preorder A
  by_key f o = record {
    le = λ a b. o.le (f a) (f b);
    total = λ a b. o.total (f a) (f b);
    trans = λ a b c. o.trans (f a) (f b) (f c);
  }

module _ {ℓ} {A : Type ℓ} (o p : Preorder A) where
  -- The first component decides unless it ties.
  abbrev pub lexical_le : A → A → Bool
  lexical_le a b = if o.le a b then (if o.le b a then p.le a b else true) else false

  pub lexical_total : (a b : A) → (lexical_le a b ≡ true) ⊎ (lexical_le b a ≡ true)
  lexical_total a b = grind (arith, o.total a b, p.total a b)

  pub lexical_trans :
      (a b c : A) → lexical_le a b ≡ true → lexical_le b c ≡ true → lexical_le a c ≡ true
  lexical_trans a b c h k =
      ground (arith, o.trans a b c, p.trans a b c, o.trans c a b, o.trans b c a)

  abbrev pub lexical : Preorder A
  lexical = record { le = lexical_le; total = lexical_total; trans = lexical_trans }
