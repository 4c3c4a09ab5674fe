-- ===== src/WalkForward/Rolling.antt =====
-- The rolling mode of `WalkForwardEngine.generate_splits` (backend/optimization/walk_forward.py).
use option_research_platform.Base.{
  ℕ, zero, suc, ◌+◌, ◌<◌, ◌≡◌, refl, ◌∙◌, inl, inr, false, List, [], ◌∷◌, some, arith, Bool-cases,
}
use option_research_platform.Base.Int.{ℤ, pos, ◌+ℤ◌, ◌-ℤ◌, ◌≤ℤ◌, ◌<ℤ◌, leb_ℤ, int_laws, leb_ℤ→<ℤ}
use option_research_platform.Base.Result.{ok}
use option_research_platform.WalkForward.{
  WalkForwardMode, rolling, WalkForwardConfig, WalkForwardSplit, train_start_of, walk,
  generate_splits, last_date,
}
use option_research_platform.WalkForward.Rounds.{
  IsUsable, span, IsOrdered, HasRoom, split_at, split_at-IsOrdered, ends_by, shift-within, ℤ_cases,
  walk_leaves, walk_goes_on, generate_splits-walk,
}

-- The splits begin at the cursor and its steps, end by the last day, and are all that do.
abbrev pub Steps : WalkForwardConfig → ℤ → ℤ → ℕ → List WalkForwardSplit → Type 0
Steps c end cursor number [] = end +ℤ pos 1 <ℤ cursor +ℤ span c
Steps c end cursor number (s ∷ rest) =
    (s.train_start ≡ cursor)
    × (s.split_id ≡ number)
    × IsOrdered c s
    × (s.test_end ≤ℤ end)
    × Steps c end (cursor +ℤ c.step_days) (number + 1) rest

train_start_of-rolling :
    (anchor cursor : ℤ) {m : WalkForwardMode}
    → m ≡ rolling
    → train_start_of anchor cursor m ≡ cursor
train_start_of-rolling anchor cursor h = ground (arith, h)

-- The loop over rolling windows ends with all of them.
walk-Steps :
    (fuel : ℕ) (c : WalkForwardConfig) (anchor end cursor : ℤ) (number : ℕ)
    → c.mode ≡ rolling
    → IsUsable c
    → 0 < fuel
    → end <ℤ cursor +ℤ pos fuel
    → pos 1 ≤ℤ cursor
    → cursor +ℤ span c ≤ℤ last_date +ℤ pos 1
    → end +ℤ c.step_days ≤ℤ last_date
    → (splits : List WalkForwardSplit) × (walk fuel c anchor end cursor number ≡ some (ok splits))
      × Steps c end cursor number splits
walk-Steps zero c anchor end cursor number m u h k from room after = absurd (omega arith)
walk-Steps (suc fuel) c anchor end cursor number m u h k from room after =
    let e : train_start_of anchor cursor c.mode ≡ cursor = train_start_of-rolling anchor cursor m in
    let has_room : HasRoom fuel c anchor end cursor number = rw e (from, room) in
    elim (ℤ_cases (end +ℤ pos 1) (train_start_of anchor cursor c.mode +ℤ span c)) [
      | inl late ↦ ([], walk_leaves fuel c anchor end cursor number u has_room late, rw e at late)
      | inr fits ↦
          let fits_cursor : cursor +ℤ span c ≤ℤ end +ℤ pos 1 = rw e at fits in
          let (rest, later, steps) =
            walk-Steps fuel c anchor end (cursor +ℤ c.step_days) (number + 1) m u (omega int_laws)
              (omega int_laws) (omega int_laws) (omega int_laws) after in
          (
            split_at c number (train_start_of anchor cursor c.mode) ∷ rest,
            walk_goes_on fuel c anchor end cursor number (some (ok rest)) u has_room fits
                (shift-within cursor c.step_days (omega int_laws) (omega int_laws)) later,
            (
              e,
              refl,
              split_at-IsOrdered c number (train_start_of anchor cursor c.mode),
              ends_by c number (train_start_of anchor cursor c.mode) end fits,
              steps,
            ),
          )
    ]

module _ (fuel : ℕ) (start end : ℤ) (c : WalkForwardConfig) where
  generate_splits-short :
      IsUsable c
      → start <ℤ end
      → leb_ℤ (c.training_days +ℤ c.validation_days +ℤ c.test_days) (end -ℤ start +ℤ pos 1) ≡ false
      → generate_splits fuel start end c ≡ some (ok [])
  unfolding generate_splits
  generate_splits-short u h k = ground arith

too_short :
    (start end : ℤ) (c : WalkForwardConfig)
    → IsUsable c
    → leb_ℤ (c.training_days +ℤ c.validation_days +ℤ c.test_days) (end -ℤ start +ℤ pos 1) ≡ false
    → end +ℤ pos 1 <ℤ start +ℤ span c
too_short start end c u short =
    let few : end -ℤ start +ℤ pos 1 <ℤ c.training_days +ℤ c.validation_days +ℤ c.test_days =
      leb_ℤ→<ℤ (c.training_days +ℤ c.validation_days +ℤ c.test_days) (end -ℤ start +ℤ pos 1)
        short in
    omega int_laws

-- In rolling mode, with windows and steps of at least a day and no negative gap, where the calendar has
-- room for the windows from the start date and for a step from the end date, the loop ends: with
-- as much fuel as there are days between the dates, and one more, generate_splits returns splits and
-- does not raise. The splits are numbered from 1, train from the start date and its steps, have
-- the lengths and the gaps that are asked for, in the order training, validation and test, and end by
-- the end date; the windows of one more step would not.
pub generate_splits_rolling :
    (fuel : ℕ) (start end : ℤ) (c : WalkForwardConfig)
    → c.mode ≡ rolling
    → IsUsable c
    → start <ℤ end
    → end <ℤ start +ℤ pos fuel
    → pos 1 ≤ℤ start
    → start +ℤ span c ≤ℤ last_date +ℤ pos 1
    → end +ℤ c.step_days ≤ℤ last_date
    → (splits : List WalkForwardSplit) × (generate_splits fuel start end c ≡ some (ok splits))
      × Steps c end start 1 splits
generate_splits_rolling fuel start end c m u h k from room after =
    elim (Bool-cases
      (leb_ℤ (c.training_days +ℤ c.validation_days +ℤ c.test_days) (end -ℤ start +ℤ pos 1))) [
        | inl long ↦
            let (splits, e, steps) =
              walk-Steps fuel c start end start 1 m u (omega int_laws) k from room after in
            (splits, generate_splits-walk fuel start end c u h long ∙ e, steps)
        | inr short ↦
            ([], generate_splits-short fuel start end c u h short, too_short start end c u short)
      ]
