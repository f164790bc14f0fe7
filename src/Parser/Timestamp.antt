-- ===== src/Parser/Timestamp.antt =====
-- backend/app/services/crash_parser.py: `_parse_timestamp` and `_from_epoch`. Times are microseconds
-- since the start of the year 1. Python's `datetime` and `float` enter as `Clock`.
use diagnosis_system.Prelude.{
  ℕ, suc, ◌+◌, ◌*◌, ◌-◌, ◌^◌, ◌≤◌, ◌≡◌, Bool, true, false, inl, inr, Option, none, some, List, [],
  ◌∷◌, ◌++◌, arith, Text, codes, strip, ltb, leb, ◌==◌, if◌then◌else◌, Option-cases,
}
use diagnosis_system.Parser.Value.{
  Integer, pos, negsuc, Float, finite, infinite, nan, Value, null, boolean, integer, float, text,
  array, object, Warning, timestamp_missing, timestamp_unusable, timestamp_in_future,
}

-- a date and time, with its offset from UTC if it has one
pub record Moment : Type 0 where
  pub time : ℕ
  pub offset : Option Integer

-- `none` is a `ValueError`; of `int_to_float` it is an `OverflowError`, and of `fromtimestamp`
-- any of the three that `_from_epoch` catches.
pub record Clock : Type 0 where
  pub fromisoformat : Text → Option Moment
  pub to_float : Text → Option Float
  pub int_to_float : Integer → Option Float
  pub thousandth : Float → Float
  pub fromtimestamp : Float → Option ℕ

-- a day
abbrev pub max_clock_skew : ℕ
max_clock_skew = 86_400_000_000

-- the end of the year 9999
abbrev pub max_time : ℕ
max_time = 315_537_897_600_000_000

-- `text.replace("Z", "+00:00")`
abbrev pub replace_zulu : Text → Text
replace_zulu [] = []
replace_zulu (c ∷ cs) = (if c == b'Z' then codes "+00:00" else c ∷ []) ++ replace_zulu cs

-- what became of a timestamp
pub data Stamp : Type 0 where
  read : ℕ → Stamp
  too_far_in_future : Stamp
  overflow_error : Stamp

-- `value <= 0`
not_positive : Float → Bool
not_positive (finite true n scale) = true
not_positive (finite false n scale) = n == 0
not_positive (infinite negative) = negative
not_positive nan = false

-- `value > 1e11`
is_millis : Float → Bool
is_millis (finite true n scale) = false
is_millis (finite false n scale) = ltb (100_000_000_000 * 2 ^ scale) n
is_millis (infinite true) = false
is_millis (infinite false) = true
is_millis nan = false

in_utc : ℕ → Option Integer → Option ℕ
in_utc time none = some time
in_utc time (some (pos n)) = if ltb time n then none else some (time - n)
in_utc time (some (negsuc n)) = if leb max_time (time + suc n) then none else some (time + suc n)

-- the two comparisons with the reference
check_future : ℕ → ℕ → Stamp × List Warning
check_future reference time =
    if ltb (reference + max_clock_skew) time
    then (too_far_in_future, [])
    else if ltb reference time
    then (read time, timestamp_in_future ∷ [])
    else (read time, [])

check_utc : ℕ → Option ℕ → Stamp × List Warning
unfolding check_future
check_utc reference none = (overflow_error, [])
check_utc reference (some time) = check_future reference time

check_moment : ℕ → Option Moment → Stamp × List Warning
unfolding check_utc in_utc
check_moment reference none = (read reference, timestamp_unusable ∷ [])
check_moment reference (some m) = check_utc reference (in_utc m.time m.offset)

utc : Option ℕ → Option Moment
utc none = none
utc (some time) = some (record { time = time; offset = some (pos 0) })

module _ (clock : Clock) where
  -- `_from_epoch`
  from_epoch : Float → Option ℕ
  unfolding not_positive is_millis
  from_epoch value =
      if not_positive value
      then none
      else clock.fromtimestamp (if is_millis value then clock.thousandth value else value)

  epoch_if : Option Float → Option Moment
  unfolding from_epoch utc
  epoch_if none = none
  epoch_if (some value) = utc (from_epoch value)

  iso_or_epoch : Text → Option Moment → Option Moment
  unfolding epoch_if
  iso_or_epoch t none = epoch_if (clock.to_float t)
  iso_or_epoch t (some m) = some m

  check_integer : ℕ → Option Float → Stamp × List Warning
  unfolding check_moment epoch_if
  check_integer reference none = (overflow_error, [])
  check_integer reference (some value) = check_moment reference (epoch_if (some value))

  -- `_parse_timestamp`
  unfoldable pub parse_timestamp : ℕ → Option Value → Stamp × List Warning
  unfolding check_integer check_moment epoch_if iso_or_epoch strip
  parse_timestamp reference none = (read reference, timestamp_missing ∷ [])
  parse_timestamp reference (some (integer i)) = check_integer reference (clock.int_to_float i)
  parse_timestamp reference (some (float f)) = check_moment reference (epoch_if (some f))
  parse_timestamp reference (some (text t)) =
      let stripped = strip t in
      check_moment reference (iso_or_epoch stripped (clock.fromisoformat (replace_zulu stripped)))
  parse_timestamp reference (some _) = (read reference, timestamp_unusable ∷ [])

  check_moment-le :
      (reference : ℕ) (o : Option Moment) {time : ℕ}
      → (check_moment reference o).0 ≡ read time
      → time ≤ reference + max_clock_skew
  unfolding check_moment check_utc check_future
  check_moment-le reference none h = ground arith
  check_moment-le reference (some m) h = elim (Option-cases (in_utc m.time m.offset)) [
    | inl e ↦ ground (arith, e)
    | inr (t, e) ↦ ground (arith, e)
  ]

  check_integer-le :
      (reference : ℕ) (o : Option Float) {time : ℕ}
      → (check_integer reference o).0 ≡ read time
      → time ≤ reference + max_clock_skew
  unfolding check_integer
  check_integer-le reference none h = cc
  check_integer-le reference (some value) h = check_moment-le reference (epoch_if (some value)) h

  -- No report is stored with a time more than a day after its receipt.
  pub parse_timestamp_bound :
      (reference : ℕ) (o : Option Value) {time : ℕ}
      → (parse_timestamp reference o).0 ≡ read time
      → time ≤ reference + max_clock_skew
  unfolding parse_timestamp
  parse_timestamp_bound reference none h = ground arith
  parse_timestamp_bound reference (some null) h = ground arith
  parse_timestamp_bound reference (some (boolean b)) h = ground arith
  parse_timestamp_bound reference (some (integer i)) h =
      check_integer-le reference (clock.int_to_float i) h
  parse_timestamp_bound reference (some (float f)) h =
      check_moment-le reference (epoch_if (some f)) h
  parse_timestamp_bound reference (some (text t)) h =
      let stripped = strip t in
      check_moment-le reference
        (iso_or_epoch stripped (clock.fromisoformat (replace_zulu stripped))) h
  parse_timestamp_bound reference (some (array vs)) h = ground arith
  parse_timestamp_bound reference (some (object m)) h = ground arith
