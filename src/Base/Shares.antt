-- ===== src/Base/Shares.antt =====
-- The share of one amount in another, as the exact decimal of a quotient.
use native.Mathlib.Nat.{div-le_of_le-mul, div-lt_iff_lt-mul}
use option_research_platform.Base.{◌≡◌, arith, ℕ, ltb, ◌*◌, ◌/◌, ◌≤◌, ◌<◌, ◌+◌}
use option_research_platform.Base.Int.{ℤ, pos, negsuc, ◌≤ℤ◌, ltb_ℤ}
use option_research_platform.Base.Value.{over, places}

share_bounds : (a b : ℕ) → a ≤ b → a * places / b ≤ places
share_bounds a b h = div-le_of_le-mul b (grind arith)

pub ltb_iff : (x y u v : ℕ) → (x < y → u < v) → (u < v → x < y) → ltb x y ≡ ltb u v
ltb_iff x y u v f g = ground arith

share_ltb : (a b : ℕ) → 1 ≤ b → ltb (a * places / b + 0) (places + 0) ≡ ltb (a + 0) (b + 0)
share_ltb a b k =
    ltb_iff _ _ _ _
      (λ h.
        let less : a * places < places * b = (div-lt_iff_lt-mul k).0 (omega (arith, h)) in
        omega (arith, less))
      (λ h. omega (arith, (div-lt_iff_lt-mul {x = a * places} {y = places} k).1 (omega (arith, h))))

-- The share of a part in a whole lies between 0 and 1, and is less than 1 exactly for a smaller part.
pub ratio_lem :
    (a b : ℤ)
    → pos 0 ≤ℤ a
    → a ≤ℤ b
    → pos 1 ≤ℤ b
    → (pos 0 ≤ℤ over a b) × (over a b ≤ℤ pos places) × (ltb_ℤ (over a b) (pos places) ≡ ltb_ℤ a b)
unfolding over
ratio_lem (pos a) (pos b) h k l =
    (omega arith, omega (arith, share_bounds a b (omega arith)), share_ltb a b (omega arith))
ratio_lem (negsuc a) b h k l = absurd (omega arith)
ratio_lem (pos a) (negsuc b) h k l = absurd (omega arith)
