-- ===== src/WalkForward/Tests.antt =====
-- A configuration in each mode, and the theorems at it.
use option_research_platform.Base.{◌≡◌, refl, false, List, map, ◌∷◌, [], Option, some, arith}
use option_research_platform.Base.Int.{ℤ, pos, negsuc, ◌+ℤ◌, ◌-ℤ◌}
use option_research_platform.Base.Result.{Result, ok, err}
use option_research_platform.WalkForward.{
  WalkForwardMode, rolling, expanding, WalkForwardConfig, WalkForwardSplit, WalkForwardSplitError,
  generate_splits, date_overflow, invalid_validation_chronology,
}
use option_research_platform.WalkForward.Rounds.{IsUsable}
use option_research_platform.WalkForward.Rolling.{Steps, generate_splits_rolling}
use option_research_platform.WalkForward.Fixed.{generate_splits_overflows}

abbrev config : WalkForwardMode → WalkForwardConfig
config mode = record {
  mode = mode;
  training_days = pos 10;
  validation_days = pos 5;
  test_days = pos 5;
  step_days = pos 4;
  purge_days = pos 2;
  embargo_days = pos 1;
  regime_aware = false;
}

config-IsUsable : (m : WalkForwardMode) → IsUsable (config m)
config-IsUsable m = omega arith

abbrev ends : Option (Result WalkForwardSplitError (List WalkForwardSplit)) → List ℤ
ends (some (ok splits)) = map (λ s. s.test_end) splits
ends _ = []

three_splits :
    ends (generate_splits 40 (pos 100) (pos 130) (config rolling))
    ≡ pos 122 ∷ pos 126 ∷ pos 130 ∷ []
unfolding generate_splits ◌+ℤ◌ ◌-ℤ◌
three_splits = refl

-- A negative purge makes the windows overlap, which is found out.
negative_purge :
    generate_splits 40 (pos 100) (pos 130) (record (config rolling) { purge_days = negsuc 0 })
    ≡ some (err invalid_validation_chronology)
unfolding generate_splits ◌+ℤ◌ ◌-ℤ◌
negative_purge = refl

generate_splits_rolling_example :
    (splits : List WalkForwardSplit) × (generate_splits 31 (pos 100) (pos 130) (config rolling)
      ≡ some (ok splits))
    × Steps (config rolling) (pos 130) (pos 100) 1 splits
unfolding ◌+ℤ◌
generate_splits_rolling_example =
    generate_splits_rolling 31 (pos 100) (pos 130) (config rolling) refl (config-IsUsable rolling)
      (omega arith) (omega arith) (omega arith) (omega arith) (omega arith)

-- The calendar ends twenty days after the end date.
generate_splits_overflows_example :
    generate_splits 51 (pos 3652009) (pos 3652039) (config expanding) ≡ some (err date_overflow)
unfolding ◌+ℤ◌
generate_splits_overflows_example =
    generate_splits_overflows 51 (pos 3652009) (pos 3652039) (config expanding) (λ e. cc)
      (config-IsUsable expanding) (omega arith) (omega arith) (omega arith) (omega arith)
