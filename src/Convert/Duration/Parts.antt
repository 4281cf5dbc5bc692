-- ===== src/Convert/Duration/Parts.antt =====
-- The text of a duration, part by part, and what `MetricFromDuration` makes of it.
use mikrotik_exporter.Prelude.{
  ℕ, zero, suc, ◌+◌, ◌%◌, ◌^◌, ◌≤◌, ◌<◌, Bool, true, false, none, some, List, [], ◌∷◌, ◌++◌,
  append-nil, ◌≡◌, refl, arith, length, length-append, Bytes, codes, equal, is_empty, All, add64,
  mul64,
}
use mikrotik_exporter.Convert.Duration.{
  ok, unit_size, adjust_duration, is_unit_char, split_at, split_unit, duration_part,
  get_duration_parts, total_duration, parse_duration,
}
use mikrotik_exporter.Convert.Numbers.{is_digit, IsDigit, decimal, atoi-decimal, int_limit}

pub data TimeUnit : Type 0 where
  weeks days hours minutes seconds milliseconds microseconds : TimeUnit

abbrev pub unit_text : TimeUnit → Bytes
unit_text weeks = codes "w"
unit_text days = codes "d"
unit_text hours = codes "h"
unit_text minutes = codes "m"
unit_text seconds = codes "s"
unit_text milliseconds = codes "ms"
unit_text microseconds = codes "us"

-- The nanoseconds of a unit.
abbrev pub nanoseconds : TimeUnit → ℕ
nanoseconds weeks = 604_800_000_000_000
nanoseconds days = 86_400_000_000_000
nanoseconds hours = 3_600_000_000_000
nanoseconds minutes = 60_000_000_000
nanoseconds seconds = 1_000_000_000
nanoseconds milliseconds = 1_000_000
nanoseconds microseconds = 1_000

-- One part: its digits, and its unit.
abbrev pub Part : Type 0
Part = Bytes × TimeUnit

abbrev pub IsPart : Part → Type 0
IsPart (ds, u) = (is_empty ds ≡ false) × All IsDigit ds × (decimal ds < int_limit)

abbrev pub render : List Part → Bytes
render [] = []
render ((ds, u) ∷ ps) = ds ++ (unit_text u ++ render ps)

-- The sum of the parts' nanoseconds as an int64.
abbrev pub sum_from : ℕ → List Part → ℕ
sum_from total [] = total
sum_from total ((ds, u) ∷ ps) = sum_from (add64 total (mul64 (decimal ds) (nanoseconds u))) ps

module _ (test : ℕ → Bool) where
  split_at-append :
      (a : Bytes) (c : ℕ) (b : Bytes)
      → All (λ x. test x ≡ false) a
      → test c ≡ true
      → split_at test (a ++ c ∷ b) ≡ some (a, c ∷ b)
  unfolding split_at
  split_at-append [] c b h t = rw t
  split_at-append (x ∷ a) c b h t = rw (h.0, split_at-append a c b h.1 t)

  split_at-none : (a : Bytes) → All (λ x. test x ≡ false) a → split_at test a ≡ none
  unfolding split_at
  split_at-none [] h = refl
  split_at-none (x ∷ a) h = rw (h.0, split_at-none a h.1)

digits_no_unit : (s : Bytes) → All IsDigit s → All (λ c. is_unit_char c ≡ false) s
digits_no_unit [] h = tt
digits_no_unit (c ∷ s) h = (ground arith, digits_no_unit s h.1)

-- A text that begins with a digit, if with anything.
abbrev StartsDigit : Bytes → Type 0
StartsDigit [] = Unit
StartsDigit (c ∷ s) = is_digit c ≡ true

render-StartsDigit : (ps : List Part) → All IsPart ps → StartsDigit (render ps)
render-StartsDigit [] h = tt
render-StartsDigit (([], u) ∷ ps) h = absurd (ground arith)
render-StartsDigit ((c ∷ ds, u) ∷ ps) h = ground arith

unit_text_letters : (u : TimeUnit) → All (λ c. is_digit c ≡ false) (unit_text u)
unit_text_letters milliseconds = (refl, (refl, tt))
unit_text_letters microseconds = (refl, (refl, tt))
unit_text_letters weeks = (refl, tt)
unit_text_letters _ = (refl, tt)

split_unit-unit_text :
    (u : TimeUnit) (rest : Bytes)
    → StartsDigit rest
    → split_unit (unit_text u ++ rest) ≡ (unit_text u, rest)
unfolding split_unit
split_unit-unit_text u [] h =
    rw (append-nil (unit_text u))
      (rw (split_at-none is_digit (unit_text u) (unit_text_letters u), split_unit))
split_unit-unit_text u (c ∷ s) h =
    rw (split_at-append is_digit (unit_text u) c s (unit_text_letters u) h, split_unit)

unit_size-unit_text : (u : TimeUnit) → unit_size (unit_text u) ≡ some (nanoseconds u)
unfolding unit_size equal
unit_size-unit_text weeks = refl
unit_size-unit_text days = refl
unit_size-unit_text hours = refl
unit_size-unit_text minutes = refl
unit_size-unit_text seconds = refl
unit_size-unit_text milliseconds = refl
unit_size-unit_text microseconds = refl

-- The first letter of a unit.
unit_text_head :
    (u : TimeUnit) → (c : ℕ) × (more : Bytes) × (unit_text u ≡ c ∷ more) × (is_unit_char c ≡ true)
unit_text_head weeks = (b'w', [], refl, refl)
unit_text_head days = (b'd', [], refl, refl)
unit_text_head hours = (b'h', [], refl, refl)
unit_text_head minutes = (b'm', [], refl, refl)
unit_text_head seconds = (b's', [], refl, refl)
unit_text_head milliseconds = (b'm', b's' ∷ [], refl, refl)
unit_text_head microseconds = (b'u', b's' ∷ [], refl, refl)

split_at-unit_text :
    (ds : Bytes) (u : TimeUnit) (rest : Bytes)
    → All IsDigit ds
    → split_at is_unit_char (ds ++ (unit_text u ++ rest)) ≡ some (ds, unit_text u ++ rest)
split_at-unit_text ds u rest h =
    let (c, more, e, t) = unit_text_head u in
    rw e (split_at-append is_unit_char ds c (more ++ rest) (digits_no_unit ds h) t)

duration_part-unit_text :
    (ds : Bytes) (u : TimeUnit) (rest : Bytes)
    → IsPart (ds, u)
    → duration_part ds (unit_text u, rest) ≡ ok (mul64 (decimal ds) (nanoseconds u), rest)
unfolding duration_part adjust_duration
duration_part-unit_text ds u rest h =
    let (c, more, e, t) = unit_text_head u in
    let filled : is_empty (unit_text u) ≡ false = rw e in
    let small : decimal ds % 2 ^ 64 ≡ decimal ds = omega arith in
    rw (filled, duration_part)
      (rw (h.0, atoi-decimal ds h.0 h.1 h.2, duration_part) (rw (unit_size-unit_text u) (rw small)))

get_duration_parts-render :
    (ds : Bytes) (u : TimeUnit) (rest : Bytes)
    → IsPart (ds, u)
    → StartsDigit rest
    → get_duration_parts (ds ++ (unit_text u ++ rest))
      ≡ ok (mul64 (decimal ds) (nanoseconds u), rest)
unfolding get_duration_parts
get_duration_parts-render ds u rest h s =
    rw (split_at-unit_text ds u rest h.1, get_duration_parts)
      (rw (split_unit-unit_text u rest s) (duration_part-unit_text ds u rest h))

total_duration-render :
    (n total : ℕ) (ps : List Part)
    → All IsPart ps
    → length ps < n
    → total_duration n total (render ps) ≡ ok (sum_from total ps)
unfolding total_duration
total_duration-render zero total ps h k = absurd (omega arith)
total_duration-render (suc n) total [] h k = refl
total_duration-render (suc n) total (([], u) ∷ ps) h k = absurd (ground arith)
total_duration-render (suc n) total ((d ∷ ds, u) ∷ ps) h k =
    rw
      (
        get_duration_parts-render (d ∷ ds) u (render ps) h.0 (render-StartsDigit ps h.1),
        total_duration,
      )
      (total_duration-render n _ ps h.1 (omega arith))

length-render : (ps : List Part) → All IsPart ps → length ps ≤ length (render ps)
length-render [] h = omega arith
length-render (([], u) ∷ ps) h = absurd (ground arith)
length-render ((d ∷ ds, u) ∷ ps) h = omega (
  arith,
  length-render ps h.1,
  length-append ds (unit_text u ++ render ps),
  length-append (unit_text u) (render ps),
)

-- A text made of parts, each of digits whose value is an int and one of the seven units, is read
-- as the sum of the parts in nanoseconds, modulo 2 ^ 64 as an int64 has it.
pub parse_duration-render :
    (ps : List Part) → All IsPart ps → parse_duration (render ps) ≡ ok (sum_from 0 ps)
unfolding parse_duration
parse_duration-render ps h =
    total_duration-render (length (render ps) + 1) 0 ps h (omega (arith, length-render ps h))
