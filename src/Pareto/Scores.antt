-- ===== src/Pareto/Scores.antt =====
-- The order of scores in `ParetoEngine._stable_key` (backend/optimization/pareto.py): the highest
-- first, and no score last.
use option_research_platform.Base.{◌≡◌, ◌⊎◌, refl, inl, inr, Bool, true, false, Option, none, some}
use option_research_platform.Base.Int.{ℤ, leb_ℤ}
use option_research_platform.Base.Order.{Preorder, leb_ℤ_total, leb_ℤ_trans}

abbrev pub score_le : Option ℤ → Option ℤ → Bool
score_le (some a) (some b) = leb_ℤ b a
score_le (some a) none = true
score_le none (some b) = false
score_le none none = true

pub score_le_total : (a b : Option ℤ) → (score_le a b ≡ true) ⊎ (score_le b a ≡ true)
score_le_total (some a) (some b) = leb_ℤ_total b a
score_le_total (some a) none = inl refl
score_le_total none (some b) = inr refl
score_le_total none none = inl refl

pub score_le_trans :
    (a b c : Option ℤ) → score_le a b ≡ true → score_le b c ≡ true → score_le a c ≡ true
score_le_trans (some a) (some b) (some c) h k = leb_ℤ_trans c b a k h
score_le_trans (some a) b none h k = refl
score_le_trans (some a) none (some c) h k = cc
score_le_trans none (some b) c h k = cc
score_le_trans none none c h k = k

abbrev pub score_order : Preorder (Option ℤ)
score_order = record { le = score_le; total = score_le_total; trans = score_le_trans }
