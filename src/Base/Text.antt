-- ===== src/Base/Text.antt =====
-- Texts by their code points: Python's order on `str`, and membership in a tuple of texts.
use Prim.Native.Char.{code}
use text.Mathlib.Text.{◌==◌ as str_eq}
use option_research_platform.Base.{
  ℕ, ◌≡◌, refl, ◌⊎◌, inl, inr, Bool, true, false, List, [], ◌∷◌, arith, ltb, if◌then◌else◌, String,
  ◌||◌,
}
use option_research_platform.Base.Order.{Preorder, by_key}

abbrev pub codes : String → List ℕ
codes String.[] = []
codes (String.◌∷◌ c s) = code c ∷ codes s

abbrev pub codes_le : List ℕ → List ℕ → Bool
codes_le [] ys = true
codes_le (x ∷ xs) [] = false
codes_le (x ∷ xs) (y ∷ ys) = if ltb x y then true else if ltb y x then false else codes_le xs ys

pub codes_le_total : (a b : List ℕ) → (codes_le a b ≡ true) ⊎ (codes_le b a ≡ true)
codes_le_total [] b = inl refl
codes_le_total (x ∷ xs) [] = inr refl
codes_le_total (x ∷ xs) (y ∷ ys) = grind (arith, codes_le_total xs ys)

pub codes_le_trans :
    (a b c : List ℕ) → codes_le a b ≡ true → codes_le b c ≡ true → codes_le a c ≡ true
codes_le_trans [] b c h k = refl
codes_le_trans (x ∷ xs) [] c h k = ground arith
codes_le_trans (x ∷ xs) (y ∷ ys) [] h k = ground arith
codes_le_trans (x ∷ xs) (y ∷ ys) (z ∷ zs) h k = ground (arith, codes_le_trans xs ys zs)

abbrev pub codes_order : Preorder (List ℕ)
codes_order = record { le = codes_le; total = codes_le_total; trans = codes_le_trans }

-- `a <= b` on texts
abbrev pub text_order : Preorder String
text_order = by_key codes codes_order

-- `a in names`
abbrev pub text_in : String → List String → Bool
text_in a [] = false
text_in a (b ∷ bs) = str_eq a b || text_in a bs
