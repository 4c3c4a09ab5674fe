-- ===== src/WalkForward/Fixed.antt =====
-- The anchored and expanding modes of `WalkForwardEngine.generate_splits`
-- (backend/optimization/walk_forward.py).
use option_research_platform.Base.{ℕ, zero, suc, ◌+◌, ◌≡◌, ◌≢◌, ◌∙◌, some, inl, inr, arith, le→leb}
use option_research_platform.Base.Int.{ℤ, pos, ◌+ℤ◌, ◌≤ℤ◌, ◌<ℤ◌, int_laws}
use option_research_platform.Base.Result.{err}
use option_research_platform.WalkForward.{
  rolling, WalkForwardConfig, WalkForwardMode, train_start_of, walk, generate_splits, shift,
  last_date, date_overflow,
}
use option_research_platform.WalkForward.Rounds.{
  IsUsable, span, HasRoom, walk_goes_on, walk_overflows, generate_splits-walk, shift-within,
  ℤ_cases,
}

train_start_of-fixed :
    (anchor cursor : ℤ) (m : WalkForwardMode)
    → m ≢ rolling
    → train_start_of anchor cursor m ≡ anchor
train_start_of-fixed anchor cursor m h = ground (arith, h)

shift-beyond : (date days : ℤ) → last_date <ℤ date +ℤ days → shift date days ≡ err date_overflow
unfolding shift
shift-beyond date days h = ground arith

walk_fixed_overflows :
    (fuel : ℕ) (c : WalkForwardConfig) (anchor end cursor : ℤ) (number : ℕ)
    → c.mode ≢ rolling
    → IsUsable c
    → pos 1 ≤ℤ anchor
    → anchor +ℤ span c ≤ℤ end +ℤ pos 1
    → end ≤ℤ last_date
    → anchor ≤ℤ cursor
    → cursor ≤ℤ last_date
    → last_date <ℤ cursor +ℤ pos fuel
    → walk fuel c anchor end cursor number ≡ some (err date_overflow)
walk_fixed_overflows zero c anchor end cursor number m u from fits before later within enough =
    absurd (omega int_laws)
walk_fixed_overflows (suc fuel) c anchor end cursor number m u from fits before later within
      enough =
    let e : train_start_of anchor cursor c.mode ≡ anchor =
      train_start_of-fixed anchor cursor c.mode m in
    let has_room : HasRoom fuel c anchor end cursor number = rw e (from, omega int_laws) in
    elim (ℤ_cases last_date (cursor +ℤ c.step_days)) [
      | inl beyond ↦
          walk_overflows fuel c anchor end cursor number u has_room (rw e fits)
            (shift-beyond cursor c.step_days beyond)
      | inr inside ↦
          walk_goes_on fuel c anchor end cursor number (some (err date_overflow)) u has_room
            (rw e fits) (shift-within cursor c.step_days (omega int_laws) inside)
            (walk_fixed_overflows fuel c anchor end (cursor +ℤ c.step_days) (number + 1) m u from
              fits before (omega int_laws) inside (omega int_laws))
    ]

-- In the anchored and the expanding mode the windows do not move. Where those from the start date
-- fit, with dates of the calendar, generate_splits never returns: the loop goes on until its cursor
-- leaves the calendar and raises OverflowError, for which as many rounds as there are days from the
-- start date to the last one, and one more, are enough.
pub generate_splits_overflows :
    (fuel : ℕ) (start end : ℤ) (c : WalkForwardConfig)
    → c.mode ≢ rolling
    → IsUsable c
    → pos 1 ≤ℤ start
    → start +ℤ span c ≤ℤ end +ℤ pos 1
    → end ≤ℤ last_date
    → last_date <ℤ start +ℤ pos fuel
    → generate_splits fuel start end c ≡ some (err date_overflow)
generate_splits_overflows fuel start end c m u from fits before enough =
    generate_splits-walk fuel start end c u (omega int_laws) (le→leb _ _ (omega int_laws))
    ∙ walk_fixed_overflows fuel c start end start 1 m u from fits before (omega int_laws)
        (omega int_laws) enough
