-- ===== src/Base/Value.antt =====
-- Values of the dictionaries that the program reads by key: None, a bool, an int, or a float. A
-- float is an exact decimal with eight places, counted in units of 10 ^ -8, since the program
-- rounds its amounts by `round(x, 8)`.
use text.Mathlib.Text.{◌==◌ as str_eq}
use option_research_platform.Base.{
  ◌*◌, arith, ◌≤◌, ℕ, ◌/◌, Bool, true, false, String, Option, none, some, List, [], ◌∷◌,
  if◌then◌else◌, not, suc,
}
use option_research_platform.Base.Int.{*ℤ-pos, ◌+ℤ◌, ◌≤ℤ◌, ℤ, pos, negsuc, ◌*ℤ◌, eqb_ℤ, neg}

abbrev pub Amount : Type 0
Amount = ℤ

abbrev pub places : ℕ
places = 100000000

abbrev pub of_int : ℤ → Amount
of_int n = n *ℤ pos places

-- `int(x)` of a float: towards zero
unfoldable pub truncate : Amount → ℤ
truncate (pos n) = pos (n / places)
truncate (negsuc n) = neg (pos (suc n / places))

-- `a * b` and `a / b` of two floats, cut off behind the eighth place.
unfoldable pub times : Amount → Amount → Amount
times a b = truncate (a *ℤ b)

unfoldable pub over : Amount → Amount → Amount
over (pos a) (pos b) = pos (a * places / b)
over (pos a) (negsuc b) = neg (pos (a * places / suc b))
over (negsuc a) (pos b) = neg (pos (suc a * places / b))
over (negsuc a) (negsuc b) = pos (suc a * places / suc b)

-- `a / 2.0`
abbrev pub half : Amount → Amount
half a = over a (of_int (pos 2))

pub data Value : Type 0 where
  null : Value
  flag : Bool → Value
  int : ℤ → Value
  float : Amount → Value

abbrev pub Context : Type 0
Context = List (String × Value)

-- `context.get(key)`
unfoldable pub get : String → Context → Option Value
get key [] = none
get key ((k, v) ∷ rest) = if str_eq k key then some v else get key rest

-- `context.get(key, default)`
abbrev pub get_default : String → Value → Context → Value
get_default key d ctx = elim (get key ctx) [ none ↦ d | some v ↦ v ]

-- `bool(value)`
abbrev pub truthy : Value → Bool
truthy null = false
truthy (flag b) = b
truthy (int n) = not (eqb_ℤ n (pos 0))
truthy (float a) = not (eqb_ℤ a (pos 0))

abbrev pub of_flag : Bool → ℤ
of_flag true = pos 1
of_flag false = pos 0

-- `float(value)`: `none` where Python raises TypeError.
abbrev pub to_float : Value → Option Amount
to_float null = none
to_float (flag b) = some (of_int (of_flag b))
to_float (int n) = some (of_int n)
to_float (float a) = some a

-- `int(value)`: `none` where Python raises TypeError.
abbrev pub to_int : Value → Option ℤ
to_int null = none
to_int (flag b) = some (of_flag b)
to_int (int n) = some n
to_int (float a) = some (truncate a)

times_pos : (p x : ℕ) → p ≤ places → p * x / places ≤ x
times_pos p x h = let fits : p * x ≤ places * x = grind arith in omega arith

-- A share of at most one of a nonnegative amount lies between nothing and the amount.
pub times_share :
    (p x : Amount)
    → pos 0 ≤ℤ p
    → p ≤ℤ pos places
    → pos 0 ≤ℤ x
    → (pos 0 ≤ℤ times p x) × (times p x ≤ℤ x)
unfolding times truncate
times_share (pos p) (pos x) h k g =
    rw (*ℤ-pos p x) (omega arith, omega (arith, times_pos p x (omega arith)))
times_share (negsuc p) x h k g = absurd (omega arith)
times_share (pos p) (negsuc x) h k g = absurd (omega arith)

-- The half of a sum lies between its parts.
pub half_between :
    (b a : Amount) → pos 0 ≤ℤ b → b ≤ℤ a → (b ≤ℤ half (b +ℤ a)) × (half (b +ℤ a) ≤ℤ a)
unfolding over ◌*ℤ◌ ◌+ℤ◌
half_between (pos b) (pos a) h k = ground arith
half_between (negsuc b) a h k = absurd (omega arith)
half_between (pos b) (negsuc a) h k = absurd (omega arith)
