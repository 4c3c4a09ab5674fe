-- ===== src/Base/Time.antt =====
-- `datetime` of the standard library, as far as the program uses it: a wall clock reading in
-- microseconds and an optional offset from UTC in microseconds. `ensure_aware` is the helper that
-- every backtesting and portfolio module repeats (`_ensure_aware`, `_aware`).
use option_research_platform.Base.{true, le→leb, arith, ◌≡◌, Bool, Option, none, some, ◌*◌, ℕ}
use option_research_platform.Base.Int.{ℤ, pos, ◌+ℤ◌, ◌-ℤ◌, leb_ℤ, ltb_ℤ, eqb_ℤ, int_laws}
use option_research_platform.Base.Order.{Preorder, by_key, int_order}

pub record Datetime : Type 0 where
  pub wall : ℤ
  pub utcoffset : Option ℤ

-- `value.replace(tzinfo=UTC)` where there is no zone
unfoldable pub ensure_aware : Datetime → Datetime
ensure_aware d = elim d.utcoffset [ none ↦ record d { utcoffset = some (pos 0) } | some z ↦ d ]

-- The instant that an aware reading names; a naive one is read as UTC.
abbrev pub instant : Datetime → ℤ
instant d = elim d.utcoffset [ none ↦ d.wall | some z ↦ d.wall -ℤ z ]

-- Comparisons of aware readings are those of their instants.
abbrev pub time_le : Datetime → Datetime → Bool
time_le a b = leb_ℤ (instant a) (instant b)

abbrev pub time_lt : Datetime → Datetime → Bool
time_lt a b = ltb_ℤ (instant a) (instant b)

abbrev pub time_eq : Datetime → Datetime → Bool
time_eq a b = eqb_ℤ (instant a) (instant b)

abbrev pub time_order : Preorder Datetime
time_order = by_key instant int_order

-- `a - b`, in microseconds
abbrev pub elapsed : Datetime → Datetime → ℤ
elapsed a b = instant a -ℤ instant b

-- `d + timedelta(microseconds=n)`
unfoldable pub add_micros : Datetime → ℤ → Datetime
add_micros d n = record d { wall = d.wall +ℤ n }

abbrev pub micros_per_day : ℕ
micros_per_day = 24 * 3600 * 1000000

pub instant-ensure_aware : (d : Datetime) → instant (ensure_aware d) ≡ instant d
unfolding ensure_aware
instant-ensure_aware d = grind int_laws

pub instant-add_micros : (d : Datetime) (n : ℤ) → instant (add_micros d n) ≡ instant d +ℤ n
unfolding add_micros
instant-add_micros d n = grind int_laws

pub time_le_refl : (d : Datetime) → time_le d d ≡ true
time_le_refl d = le→leb _ _ (omega arith)
