-- ===== src/WalkForward/Rounds.antt =====
-- One round of `WalkForwardEngine.generate_splits` (backend/optimization/walk_forward.py), where the
-- calendar has room for its windows.
use option_research_platform.Base.{
  ℕ, suc, ◌+◌, ◌≡◌, refl, inl, inr, ◌⊎◌, true, false, List, [], Option, some, arith, Bool-cases,
}
use option_research_platform.Base.Int.{ℤ, pos, ◌+ℤ◌, ◌-ℤ◌, ◌≤ℤ◌, ◌<ℤ◌, leb_ℤ, ltb_ℤ, int_laws}
use option_research_platform.Base.Result.{Result, ok, err}
use option_research_platform.WalkForward.{
  WalkForwardConfig, WalkForwardSplit, WalkForwardSplitError, train_start_of, with_split,
  split_from, validate_no_look_ahead, walk, generate_splits, shift, last_date, date_overflow,
  one_round,
}

-- Windows of at least a day, steps of at least a day, and no negative gap.
pub record IsUsable (c : WalkForwardConfig) : Type 0 where
  pub trains : pos 1 ≤ℤ c.training_days
  pub validates : pos 1 ≤ℤ c.validation_days
  pub tests : pos 1 ≤ℤ c.test_days
  pub steps : pos 1 ≤ℤ c.step_days
  pub purges : pos 0 ≤ℤ c.purge_days
  pub embargoes : pos 0 ≤ℤ c.embargo_days

-- The days from the first of training to the last of testing.
abbrev pub span : WalkForwardConfig → ℤ
span c = c.training_days +ℤ c.purge_days +ℤ c.validation_days +ℤ c.embargo_days +ℤ c.test_days

-- The windows have their lengths, in order, with the gaps between them.
pub record IsOrdered (c : WalkForwardConfig) (s : WalkForwardSplit) : Type 0 where
  pub training : s.train_start +ℤ c.training_days ≡ s.train_end +ℤ pos 1
  pub purged : s.train_end +ℤ c.purge_days <ℤ s.validation_start
  pub validation : s.validation_start +ℤ c.validation_days ≡ s.validation_end +ℤ pos 1
  pub embargoed : s.validation_end +ℤ c.embargo_days <ℤ s.test_start
  pub test : s.test_start +ℤ c.test_days ≡ s.test_end +ℤ pos 1

ltb_ℤ-true : (a b : ℤ) → a <ℤ b → ltb_ℤ a b ≡ true
ltb_ℤ-true a b h = ground arith

ltb_ℤ-false : (a b : ℤ) → b ≤ℤ a → ltb_ℤ a b ≡ false
ltb_ℤ-false a b h = ground arith

validate_no_look_ahead_lem :
    (s : WalkForwardSplit)
    → s.train_start ≤ℤ s.train_end
    → s.train_end <ℤ s.validation_start
    → s.validation_start ≤ℤ s.validation_end
    → s.validation_end <ℤ s.test_start
    → s.test_start ≤ℤ s.test_end
    → validate_no_look_ahead s ≡ ok tt
validate_no_look_ahead_lem s h k l m n = ground arith

pub shift-within :
    (date days : ℤ)
    → pos 1 ≤ℤ date +ℤ days
    → date +ℤ days ≤ℤ last_date
    → shift date days ≡ ok (date +ℤ days)
unfolding shift
shift-within date days h k = ground arith

module _ (c : WalkForwardConfig) (number : ℕ) (t : ℤ) where
  -- The windows from a day, in a calendar without an end.
  abbrev pub split_at : WalkForwardSplit
  split_at =
      let train_end = t +ℤ (c.training_days -ℤ pos 1) in
      let validation_start = train_end +ℤ (pos 1 +ℤ c.purge_days) in
      let validation_end = validation_start +ℤ (c.validation_days -ℤ pos 1) in
      let test_start = validation_end +ℤ (pos 1 +ℤ c.embargo_days) in
      record {
        split_id = number;
        train_start = t;
        train_end = train_end;
        validation_start = validation_start;
        validation_end = validation_end;
        test_start = test_start;
        test_end = test_start +ℤ (c.test_days -ℤ pos 1);
        purge_days = c.purge_days;
        embargo_days = c.embargo_days;
        mode = c.mode;
        regime_aware = c.regime_aware;
      }

  pub split_from-within :
      IsUsable c
      → pos 1 ≤ℤ t
      → t +ℤ span c ≤ℤ last_date +ℤ pos 1
      → split_from c number t ≡ ok split_at
  unfolding split_from
  split_from-within u h k =
      rw
        (
          shift-within t (c.training_days -ℤ pos 1) (omega int_laws) (omega int_laws),
          shift-within split_at.train_end (pos 1 +ℤ c.purge_days) (omega int_laws) (omega int_laws),
          shift-within split_at.validation_start (c.validation_days -ℤ pos 1) (omega int_laws)
              (omega int_laws),
          shift-within split_at.validation_end (pos 1 +ℤ c.embargo_days) (omega int_laws)
              (omega int_laws),
          shift-within split_at.test_start (c.test_days -ℤ pos 1) (omega int_laws) (omega int_laws),
        )
        refl

  pub split_at-IsOrdered : IsOrdered c split_at
  split_at-IsOrdered = record {
    training = omega int_laws;
    purged = omega int_laws;
    validation = omega int_laws;
    embargoed = omega int_laws;
    test = omega int_laws;
  }

  pub ends_by : (end : ℤ) → t +ℤ span c ≤ℤ end +ℤ pos 1 → split_at.test_end ≤ℤ end
  ends_by end h = omega int_laws

  pub split_at-is_valid : IsUsable c → validate_no_look_ahead split_at ≡ ok tt
  split_at-is_valid u =
      validate_no_look_ahead_lem split_at (omega int_laws) (omega int_laws) (omega int_laws)
        (omega int_laws) (omega int_laws)

pub ℤ_cases : (a b : ℤ) → (a <ℤ b) ⊎ (b ≤ℤ a)
ℤ_cases a b = elim (Bool-cases (leb_ℤ b a)) [
  | inl h ↦ inr (ground arith)
  | inr h ↦ inl (ground arith)
]

module _ (fuel : ℕ) (c : WalkForwardConfig) (anchor end cursor : ℤ) (number : ℕ) where
  -- The first day of training in a round.
  abbrev pub first_day : ℤ
  first_day = train_start_of anchor cursor c.mode

  -- A round that the calendar has room for.
  abbrev pub HasRoom : Type 0
  HasRoom = (pos 1 ≤ℤ first_day) × (first_day +ℤ span c ≤ℤ last_date +ℤ pos 1)

  -- A round in which the split would end too late.
  pub walk_leaves :
      IsUsable c
      → HasRoom
      → end +ℤ pos 1 <ℤ first_day +ℤ span c
      → walk (suc fuel) c anchor end cursor number ≡ some (ok [])
  unfolding walk one_round
  walk_leaves u room late =
      rw (split_from-within c number first_day u room.0 room.1, walk, one_round)
        (rw (ltb_ℤ-true end (split_at c number first_day).test_end (omega int_laws)) refl)

  -- A round with a split, and the rounds after it.
  pub walk_goes_on :
      (rest : Option (Result WalkForwardSplitError (List WalkForwardSplit)))
      → IsUsable c
      → HasRoom
      → first_day +ℤ span c ≤ℤ end +ℤ pos 1
      → shift cursor c.step_days ≡ ok (cursor +ℤ c.step_days)
      → walk fuel c anchor end (cursor +ℤ c.step_days) (number + 1) ≡ rest
      → walk (suc fuel) c anchor end cursor number ≡ with_split (split_at c number first_day) rest
  unfolding walk one_round
  walk_goes_on rest u room fits moves later =
      rw (split_from-within c number first_day u room.0 room.1, walk, one_round)
        (rw (ltb_ℤ-false end (split_at c number first_day).test_end (omega int_laws))
          (rw (split_at-is_valid c number first_day u) (rw moves (rw later refl))))

  -- A round with a split, and a cursor that leaves the calendar.
  pub walk_overflows :
      IsUsable c
      → HasRoom
      → first_day +ℤ span c ≤ℤ end +ℤ pos 1
      → shift cursor c.step_days ≡ err date_overflow
      → walk (suc fuel) c anchor end cursor number ≡ some (err date_overflow)
  unfolding walk one_round
  walk_overflows u room fits moves =
      rw (split_from-within c number first_day u room.0 room.1, walk, one_round)
        (rw (ltb_ℤ-false end (split_at c number first_day).test_end (omega int_laws))
          (rw (split_at-is_valid c number first_day u) (rw moves refl)))

module _ (fuel : ℕ) (start end : ℤ) (c : WalkForwardConfig) where
  pub generate_splits-walk :
      IsUsable c
      → start <ℤ end
      → leb_ℤ (c.training_days +ℤ c.validation_days +ℤ c.test_days) (end -ℤ start +ℤ pos 1) ≡ true
      → generate_splits fuel start end c ≡ walk fuel c start end start 1
  unfolding generate_splits
  generate_splits-walk u h k = ground arith
