-- ===== src/Convert/Values.antt =====
-- The converters of internal/convert/converters.go that are no durations, and the two that turn a
-- duration into a number.
pub mod Laws
use mikrotik_exporter.Prelude.{
  ℕ, Bool, true, false, ◌||◌, Option, none, some, List, [], ◌∷◌, if◌then◌else◌, Bytes, codes, equal,
  is_empty, split, cut_before, value_of,
}
use mikrotik_exporter.Proto.Sentence.{Sentence}
use mikrotik_exporter.Client.Reply.{Reply}
use mikrotik_exporter.Convert.Numbers.{Floats}
use mikrotik_exporter.Convert.Duration.{
  Result, ok, err, ConvertError, bad_float, cannot_split, empty_value, parse_duration,
}

-- `ExtractPropertyFromReplay`.
unfoldable pub extract_property : List Sentence → Bytes → List Bytes
extract_property [] name = []
extract_property (sen ∷ re) name = value_of name sen.map ∷ extract_property re name

module _ {F : Type 0} (fl : Floats F) where
  open fl use {zero_f, one_f, seconds, parse_float}

  abbrev pub ValueConverter : Type 0
  ValueConverter = Bytes → Result F

  abbrev pub TxrxValueConverter : Type 0
  TxrxValueConverter = Bytes → Result (F × F)

  -- `MetricFromString`.
  unfoldable pub metric_from_string : ValueConverter
  metric_from_string value = elim (parse_float value) [ none ↦ err bad_float | some x ↦ ok x ]

  abbrev pub flag : Bool → Result F
  flag b = ok (if b then one_f else zero_f)

  unfoldable pub metric_from_bool : ValueConverter
  metric_from_bool value = flag (equal value (codes "true") || equal value (codes "yes"))

  unfoldable pub metric_from_bool_neg : ValueConverter
  metric_from_bool_neg value = flag (equal value (codes "false"))

  unfoldable pub metric_constant_value : ValueConverter
  metric_constant_value value = ok one_f

  unfoldable pub metric_from_enabled : ValueConverter
  metric_from_enabled value = flag (equal value (codes "enabled"))

  unfoldable pub metric_from_running : ValueConverter
  metric_from_running inp = flag (equal inp (codes "running"))

  -- The two first parts; the error values of the pair are left out, as a Go caller does not read
  -- them. `strings.Split` gives one part at least, so its case for none does not arise.
  unfoldable pub first_floats : Bytes × List Bytes → Result (F × F)
  first_floats (first, []) = err cannot_split
  first_floats (first, second ∷ others) = elim (parse_float first) [
    | none ↦ err bad_float
    | some m1 ↦ elim (parse_float second) [ none ↦ err bad_float | some m2 ↦ ok (m1, m2) ]
  ]

  -- `SplitStringToFloats`, for a separator of one byte: the program passes `,` and `/`.
  unfoldable pub split_string_to_floats : ℕ → TxrxValueConverter
  split_string_to_floats separator metric =
      if is_empty metric then err empty_value else first_floats (split separator metric)

  unfoldable pub split_string_to_floats_on_comma : TxrxValueConverter
  split_string_to_floats_on_comma metric = split_string_to_floats b',' metric

  -- `TruncAfterAt`.
  unfoldable pub trunc_after_at : ValueConverter → ValueConverter
  trunc_after_at next value =
      if is_empty value then err empty_value else next (cut_before b'@' value)

  unfoldable pub metric_from_duration : ValueConverter
  metric_from_duration duration = elim (parse_duration duration) [
    | err e ↦ err e
    | ok d ↦ ok (seconds d)
  ]

  -- `UnixTimeFromDuration`; the clock is the parameter `ago`, the Unix time a duration before now.
  unfoldable pub unix_time_from_duration : (ℕ → F) → ValueConverter
  unix_time_from_duration ago duration = elim (parse_duration duration) [
    | err e ↦ err e
    | ok d ↦ ok (ago d)
  ]
