-- ===== src/Convert/Duration.antt =====
-- Durations such as `1w3d3h42m53s13ms71us`: `adjustDuration`, `getDurationParts` and
-- `MetricFromDuration` of internal/convert/converters.go. A `time.Duration` is an int64 of
-- nanoseconds, kept as its bit pattern: products and sums wrap around as they do in Go.
-- `strings.IndexFunc` walks runes; its two tests tell a rune's first byte apart as they tell the
-- rune, and no later byte of a rune passes the test for a digit, so bytes serve.
pub mod Total
pub mod Parts
use mikrotik_exporter.Prelude.{
  ℕ, zero, suc, ◌+◌, ◌*◌, Bool, true, false, Option, none, some, [], ◌∷◌, ◌++◌, leb, if◌then◌else◌,
  length, Bytes, codes, equal, is_empty, ℤ, to_word, add64, mul64,
}
use mikrotik_exporter.Convert.Numbers.{is_digit, atoi}

-- Why a conversion fails. `out_of_fuel` is the model's own, and is shown never to arise.
pub data ConvertError : Type 0 where
  unknown_unit bad_number invalid_duration empty_value cannot_split bad_float bad_time out_of_fuel :
      ConvertError

pub data Result {ℓ} (A : Type ℓ) : Type ℓ where
  ok : A → Result A
  err : ConvertError → Result A

abbrev pub microsecond : ℕ
microsecond = 1000

abbrev pub millisecond : ℕ
millisecond = 1000 * microsecond

abbrev pub second : ℕ
second = 1000 * millisecond

abbrev pub minute : ℕ
minute = 60 * second

abbrev pub hour : ℕ
hour = 60 * minute

-- The nanoseconds of a unit.
unfoldable pub unit_size : Bytes → Option ℕ
unit_size unit =
    if equal unit (codes "w")
    then some (hour * 168)
    else if equal unit (codes "d")
    then some (hour * 24)
    else if equal unit (codes "h")
    then some hour
    else if equal unit (codes "m")
    then some minute
    else if equal unit (codes "s")
    then some second
    else if equal unit (codes "ms")
    then some millisecond
    else if equal unit (codes "us")
    then some microsecond
    else none

unfoldable pub adjust_duration : ℤ → Bytes → Result ℕ
adjust_duration duration unit = elim (unit_size unit) [
  | none ↦ err unknown_unit
  | some size ↦ ok (mul64 (to_word duration) size)
]

-- `indexFuncChar`.
abbrev pub is_unit_char : ℕ → Bool
is_unit_char c = leb b'A' c

-- The text before the first byte that passes the test, and the text from it on; `none` if none does.
unfoldable pub split_at : (ℕ → Bool) → Bytes → Option (Bytes × Bytes)
split_at test [] = none
split_at test (c ∷ s) =
    let found = split_at test s in
    if test c then some ([], c ∷ s) else elim found [ none ↦ none | some (a, b) ↦ some (c ∷ a, b) ]

-- The unit and the rest: up to the next digit, or all of it.
unfoldable pub split_unit : Bytes → Bytes × Bytes
split_unit rest = elim (split_at is_digit rest) [
  | none ↦ (rest, [])
  | some (unit, more) ↦ (unit, more)
]

-- The part behind the search for the unit's beginning.
unfoldable pub duration_part : Bytes → Bytes × Bytes → Result (ℕ × Bytes)
duration_part value (unit, rest) =
    if is_empty unit
    then err unknown_unit
    else if is_empty value
    then ok (0, rest)
    else elim (atoi value) [
      | none ↦ err bad_number
      | some v ↦ elim (adjust_duration v unit) [ err e ↦ err e | ok d ↦ ok (d, rest) ]
    ]

unfoldable pub get_duration_parts : Bytes → Result (ℕ × Bytes)
get_duration_parts inp = elim (split_at is_unit_char inp) [
  | none ↦ err unknown_unit
  | some (value, rest) ↦ duration_part value (split_unit rest)
]

-- The loop of `MetricFromDuration` and `UnixTimeFromDuration`, with fuel: the sum of the parts.
unfoldable pub total_duration : ℕ → ℕ → Bytes → Result ℕ
total_duration zero total dur = err out_of_fuel
total_duration (suc n) total [] = ok total
total_duration (suc n) total (c ∷ dur) = elim (get_duration_parts (c ∷ dur)) [
  | err e ↦ err invalid_duration
  | ok (d, rest) ↦ total_duration n (add64 total d) rest
]

-- The loop on a whole text: each turn takes a byte at least, so the fuel is enough.
unfoldable pub parse_duration : Bytes → Result ℕ
parse_duration duration = total_duration (length duration + 1) 0 duration
