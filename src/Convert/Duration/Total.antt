-- ===== src/Convert/Duration/Total.antt =====
-- The loop over the parts of a duration ends: each part that is read shortens the text.
use mikrotik_exporter.Prelude.{
  ℕ, zero, suc, ◌+◌, ◌<◌, Bool, Option, none, some, [], ◌∷◌, ◌≡◌, ◌≢◌, arith, length, Bytes, add64,
}
use mikrotik_exporter.Convert.Duration.{
  Result, ok, err, unknown_unit, invalid_duration, out_of_fuel, is_unit_char, split_at, split_unit,
  duration_part, get_duration_parts, total_duration, parse_duration,
}
use mikrotik_exporter.Convert.Numbers.{is_digit}

-- The two parts of a found split make up the text.
abbrev Covers : Bytes → Option (Bytes × Bytes) → Type 0
Covers s none = Unit
Covers s (some (a, b)) = length a + length b ≡ length s

split_at-Covers : (test : ℕ → Bool) (s : Bytes) → Covers s (split_at test s)
unfolding split_at
split_at-Covers test [] = tt
split_at-Covers test (c ∷ s) = ground (arith, split_at-Covers test s)

split_unit_lem : (s : Bytes) → length (split_unit s).0 + length (split_unit s).1 ≡ length s
unfolding split_unit
split_unit_lem s = ground (arith, split_at-Covers is_digit s)

-- A part that is read leaves less than `s`.
abbrev Shortens : Bytes → Result (ℕ × Bytes) → Type 0
Shortens s (ok (d, rest)) = length rest < length s
Shortens s (err e) = Unit

duration_part-Shortens :
    (s value unit rest : Bytes)
    → length value + (length unit + length rest) ≡ length s
    → Shortens s (duration_part value (unit, rest))
unfolding duration_part
duration_part-Shortens s value [] rest h = tt
duration_part-Shortens s value (u ∷ unit) rest h = ground arith

get_duration_parts-Shortens : (s : Bytes) → Shortens s (get_duration_parts s)
unfolding get_duration_parts
get_duration_parts-Shortens s = go (split_at is_unit_char s) (split_at-Covers is_unit_char s)
  where
    go :
        (found : Option (Bytes × Bytes))
        → Covers s found
        → Shortens s (elim found [
          | none ↦ err unknown_unit
          | some (value, rest) ↦ duration_part value (split_unit rest)
        ])
    go none h = tt
    go (some (value, rest)) h =
        duration_part-Shortens s value (split_unit rest).0 (split_unit rest).1
          (omega (arith, split_unit_lem rest))

total_duration_ends :
    (n total : ℕ) (s : Bytes) → length s < n → total_duration n total s ≢ err out_of_fuel
unfolding total_duration
total_duration_ends zero total s h = absurd (omega arith)
total_duration_ends (suc n) total [] h = cc
total_duration_ends (suc n) total (c ∷ s) h =
    go (get_duration_parts (c ∷ s)) (get_duration_parts-Shortens (c ∷ s))
      (λ d rest k. total_duration_ends n (add64 total d) rest k)
  where
    go :
        (r : Result (ℕ × Bytes))
        → Shortens (c ∷ s) r
        → ((d : ℕ) (rest : Bytes)
            → length rest < n
            → total_duration n (add64 total d) rest ≢ err out_of_fuel)
        → elim r [
          | err e ↦ err invalid_duration
          | ok (d, rest) ↦ total_duration n (add64 total d) rest
        ]
          ≢ err out_of_fuel
    go (ok (d, rest)) k ih = ih d rest (omega arith)
    go (err e) k ih = cc

-- The loop of `MetricFromDuration` ends on every text.
pub parse_duration_total : (s : Bytes) → parse_duration s ≢ err out_of_fuel
unfolding parse_duration
parse_duration_total s = total_duration_ends (length s + 1) 0 s (omega arith)
