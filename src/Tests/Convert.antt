-- ===== src/Tests/Convert.antt =====
-- Conversions of concrete texts.
use mikrotik_exporter.Prelude.{List, [], ◌∷◌, ◌≡◌, ◌≢◌, refl, arith, codes, All}
use mikrotik_exporter.Convert.Duration.{ok, err, out_of_fuel, cannot_split, parse_duration}
use mikrotik_exporter.Convert.Duration.Parts.{
  Part, IsPart, hours, milliseconds, render, sum_from, parse_duration-render,
}
use mikrotik_exporter.Convert.Duration.Total.{parse_duration_total}
use mikrotik_exporter.Convert.Values.{split_string_to_floats, metric_from_duration}
use mikrotik_exporter.Convert.Values.Laws.{
  split_string_to_floats-append, metric_from_duration-render,
}
use mikrotik_exporter.Convert.Numbers.{unsigned, digits_value}
use mikrotik_exporter.Tests.Samples.{whole}

abbrev parts : List Part
parts = (codes "12", hours) ∷ (codes "7", milliseconds) ∷ []

parts-IsPart : All IsPart parts
parts-IsPart = ground arith

parse_duration-render_example : parse_duration (render parts) ≡ ok (sum_from 0 parts)
parse_duration-render_example = parse_duration-render parts parts-IsPart

parse_duration_total_example : parse_duration (codes "3x4m") ≢ err out_of_fuel
parse_duration_total_example = parse_duration_total (codes "3x4m")

metric_from_duration-render_example :
    metric_from_duration whole (render parts) ≡ ok (whole.seconds (sum_from 0 parts))
metric_from_duration-render_example = metric_from_duration-render whole parts parts-IsPart

split_string_to_floats-append_example :
    (split_string_to_floats whole b',' (codes "12,7") ≡ ok (12, 7))
    × (split_string_to_floats whole b',' (codes "12,7,x") ≡ ok (12, 7))
    × (split_string_to_floats whole b',' (codes "x y") ≡ err cannot_split)
unfolding unsigned digits_value
split_string_to_floats-append_example =
    split_string_to_floats-append whole b',' (codes "12") (codes "7") (codes "x") (codes "x y")
      (ground arith) (ground arith) (ground arith) refl refl
