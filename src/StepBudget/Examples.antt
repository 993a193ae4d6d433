-- ===== src/StepBudget/Examples.antt =====
-- Tests and concrete inputs for internal/stepbudget.
use omnigrex.Prelude.{◌≡◌, refl, true, false, none, some, arith, text_eq, value}
use omnigrex.StepBudget.{Limit, Observation, parse, string, finite, valid, parse-string}

abbrev quarter : Limit
quarter = record { steps = 250 }

parse-string_example : parse (string quarter) ≡ some quarter
parse-string_example = parse-string quarter (omega arith)

leading_zeros : parse "007" ≡ some (record { steps = 7 })
unfolding parse text_eq value
leading_zeros = refl

zero_refused : parse "0" ≡ none
unfolding parse text_eq value
zero_refused = refl

too_large : parse "2147483648" ≡ none
unfolding parse text_eq value
too_large = refl

abbrev stopped : Observation
stopped = record {
  limit = quarter;
  used = 250;
  responses = 250;
  summary = true;
  stopped = true;
  complete = false;
}

stopped_valid : valid stopped ≡ true
unfolding valid finite
stopped_valid = refl

early_stop : valid (record stopped { used = 249; responses = 249 }) ≡ false
unfolding valid finite
early_stop = refl
