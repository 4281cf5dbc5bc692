-- ===== src/Convert/Values/Laws.antt =====
-- What the converters make of a text.
use mikrotik_exporter.Prelude.{
  ℕ, false, refl, if◌then◌else◌, some, List, [], ◌∷◌, ◌++◌, ◌≡◌, Bytes, is_empty, split-append,
  split_self, Lacks, All,
}
use mikrotik_exporter.Convert.Numbers.{Floats}
use mikrotik_exporter.Convert.Duration.{ok, err, empty_value, cannot_split}
use mikrotik_exporter.Convert.Duration.Parts.{Part, IsPart, render, sum_from, parse_duration-render}
use mikrotik_exporter.Convert.Values.{first_floats, split_string_to_floats, metric_from_duration}

module _ {F : Type 0} (fl : Floats F) where
  open fl use {parse_float, seconds}

  -- A text of two floats, neither with the separator, is split where they were joined, whatever
  -- follows a second separator. Any text without the separator is an error: that of an empty value,
  -- or that of a text that cannot be split.
  pub split_string_to_floats-append :
      (sep : ℕ) (a b rest c : Bytes) {x y : F}
      → Lacks sep a
      → Lacks sep b
      → Lacks sep c
      → parse_float a ≡ some x
      → parse_float b ≡ some y
      → (split_string_to_floats fl sep (a ++ sep ∷ b) ≡ ok (x, y))
        × (split_string_to_floats fl sep (a ++ sep ∷ (b ++ sep ∷ rest)) ≡ ok (x, y))
        × (split_string_to_floats fl sep c
            ≡ (if is_empty c then err empty_value else err cannot_split))
  unfolding split_string_to_floats first_floats
  split_string_to_floats-append sep a b rest c la lb lc p q =
      let joined : (s : Bytes) → is_empty (a ++ sep ∷ s) ≡ false = λ s. not_empty a s in
      (
        rw (joined b, split_string_to_floats)
            (rw (split-append sep a b la) (rw (split_self sep b lb) (rw (p, q, first_floats)))),
        rw (joined (b ++ sep ∷ rest), split_string_to_floats)
            (rw (split-append sep a (b ++ sep ∷ rest) la)
              (rw (split-append sep b rest lb) (rw (p, q, first_floats)))),
        rw (split_self sep c lc) refl,
      )
    where
      not_empty : (a s : Bytes) → is_empty (a ++ sep ∷ s) ≡ false
      not_empty [] s = refl
      not_empty (d ∷ a) s = refl

  -- A text made of the parts of a duration, each with digits whose value is an int, is read as the
  -- seconds of their sum.
  pub metric_from_duration-render :
      (ps : List Part)
      → All IsPart ps
      → metric_from_duration fl (render ps) ≡ ok (seconds (sum_from 0 ps))
  unfolding metric_from_duration
  metric_from_duration-render ps h = rw (parse_duration-render ps h, metric_from_duration)
