-- ===== src/WalkForward.antt =====
-- Walk-forward splits, backend/optimization/walk_forward.py with the records of
-- backend/optimization/models.py. A date is its ordinal, from 1 to that of `date.max`, beyond
-- which adding a `timedelta` raises OverflowError. A split's identifier is its number, which the source prints.
mod Rounds
mod Rolling
mod Fixed
mod Tests
use option_research_platform.Base.{
  ℕ, zero, suc, ◌+◌, Bool, true, false, List, [], ◌∷◌, Option, none, some, if◌then◌else◌, ◌||◌,
  ◌&&◌, not,
}
use option_research_platform.Base.Int.{ℤ, pos, ◌+ℤ◌, ◌-ℤ◌, leb_ℤ, ltb_ℤ}
use option_research_platform.Base.Result.{Result, ok, err, ◌>>=◌}

pub data WalkForwardMode : Type 0 where
  anchored : WalkForwardMode
  rolling : WalkForwardMode
  expanding : WalkForwardMode

pub record WalkForwardConfig : Type 0 where
  pub mode : WalkForwardMode
  pub training_days : ℤ
  pub validation_days : ℤ
  pub test_days : ℤ
  pub step_days : ℤ
  pub purge_days : ℤ
  pub embargo_days : ℤ
  pub regime_aware : Bool

pub record WalkForwardSplit : Type 0 where
  pub split_id : ℕ
  pub train_start : ℤ
  pub train_end : ℤ
  pub validation_start : ℤ
  pub validation_end : ℤ
  pub test_start : ℤ
  pub test_end : ℤ
  pub purge_days : ℤ
  pub embargo_days : ℤ
  pub mode : WalkForwardMode
  pub regime_aware : Bool

-- WalkForwardSplitError, by its message, and the OverflowError of dates.
pub data WalkForwardSplitError : Type 0 where
  start_not_before_end : WalkForwardSplitError
  days_not_positive : WalkForwardSplitError
  step_not_positive : WalkForwardSplitError
  invalid_validation_chronology : WalkForwardSplitError
  invalid_test_chronology : WalkForwardSplitError
  date_overflow : WalkForwardSplitError

-- `date.max.toordinal()`
abbrev pub last_date : ℤ
last_date = pos 3652059

-- `date + timedelta(days=days)`
unfoldable pub shift : ℤ → ℤ → Result WalkForwardSplitError ℤ
shift date days =
    if leb_ℤ (pos 1) (date +ℤ days) && leb_ℤ (date +ℤ days) last_date
    then ok (date +ℤ days)
    else err date_overflow

-- `_train_start`
abbrev pub train_start_of : ℤ → ℤ → WalkForwardMode → ℤ
train_start_of anchor cursor anchored = anchor
train_start_of anchor cursor rolling = cursor
train_start_of anchor cursor expanding = anchor

-- The windows of one round.
unfoldable pub split_from :
    WalkForwardConfig → ℕ → ℤ → Result WalkForwardSplitError WalkForwardSplit
unfolding shift
split_from config number train_start = do
  train_end ← shift train_start (config.training_days -ℤ pos 1)
  validation_start ← shift train_end (pos 1 +ℤ config.purge_days)
  validation_end ← shift validation_start (config.validation_days -ℤ pos 1)
  test_start ← shift validation_end (pos 1 +ℤ config.embargo_days)
  test_end ← shift test_start (config.test_days -ℤ pos 1)
  ok (record {
    split_id = number;
    train_start = train_start;
    train_end = train_end;
    validation_start = validation_start;
    validation_end = validation_end;
    test_start = test_start;
    test_end = test_end;
    purge_days = config.purge_days;
    embargo_days = config.embargo_days;
    mode = config.mode;
    regime_aware = config.regime_aware;
  })

-- `_validate_no_look_ahead`
abbrev pub validate_no_look_ahead : WalkForwardSplit → Result WalkForwardSplitError (Unit {0})
validate_no_look_ahead s =
    if not (
      leb_ℤ s.train_start s.train_end
      && (ltb_ℤ s.train_end s.validation_start && leb_ℤ s.validation_start s.validation_end))
    then err invalid_validation_chronology
    else if not (ltb_ℤ s.validation_end s.test_start && leb_ℤ s.test_start s.test_end)
    then err invalid_test_chronology
    else ok tt

-- `splits.append(split)`, before the later rounds.
abbrev pub with_split :
    WalkForwardSplit
    → Option (Result WalkForwardSplitError (List WalkForwardSplit))
    → Option (Result WalkForwardSplitError (List WalkForwardSplit))
with_split split none = none
with_split split (some (err e)) = some (err e)
with_split split (some (ok splits)) = some (ok (split ∷ splits))

-- What follows the windows: `none` leaves the loop; else the split is kept and the cursor moves.
abbrev pub keep_split :
    WalkForwardConfig
    → ℤ
    → ℤ
    → WalkForwardSplit
    → Result WalkForwardSplitError (Option (WalkForwardSplit × ℤ))
keep_split config end cursor split =
    if ltb_ℤ end split.test_end
    then ok none
    else validate_no_look_ahead split >>= λ _.
        shift cursor config.step_days >>= λ next. ok (some (split, next))

-- One round of the loop.
unfoldable pub one_round :
    WalkForwardConfig → ℤ → ℤ → ℤ → ℕ → Result WalkForwardSplitError (Option (WalkForwardSplit × ℤ))
unfolding split_from shift
one_round config anchor end cursor number =
    split_from config number (train_start_of anchor cursor config.mode) >>= λ split.
    keep_split config end cursor split

-- `while True`, on fuel: `none` is a loop that has not ended. `number` is `len(splits) + 1`.
unfoldable pub walk :
    ℕ
    → WalkForwardConfig
    → ℤ
    → ℤ
    → ℤ
    → ℕ
    → Option (Result WalkForwardSplitError (List WalkForwardSplit))
unfolding one_round
walk zero config anchor end cursor number = none
walk (suc fuel) config anchor end cursor number = elim (one_round config anchor end cursor number) [
  | err e ↦ some (err e)
  | ok none ↦ some (ok [])
  | ok (some (split, next)) ↦ with_split split (walk fuel config anchor end next (number + 1))
]

-- `generate_splits`
unfoldable pub generate_splits :
    ℕ → ℤ → ℤ → WalkForwardConfig → Option (Result WalkForwardSplitError (List WalkForwardSplit))
unfolding walk
generate_splits fuel start_date end_date config =
    if leb_ℤ end_date start_date
    then some (err start_not_before_end)
    else if leb_ℤ config.training_days (pos 0)
        || (leb_ℤ config.validation_days (pos 0) || leb_ℤ config.test_days (pos 0))
    then some (err days_not_positive)
    else if leb_ℤ config.step_days (pos 0)
    then some (err step_not_positive)
    else if ltb_ℤ (end_date -ℤ start_date +ℤ pos 1)
        (config.training_days +ℤ config.validation_days +ℤ config.test_days)
    then some (ok [])
    else walk fuel config start_date end_date start_date 1
