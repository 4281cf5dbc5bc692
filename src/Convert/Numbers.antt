-- ===== src/Convert/Numbers.antt =====
-- `strconv.Atoi`, and the floats of internal/convert. Floating-point numbers are the parameter
-- `Floats`: a type with the values and the conversions that the program uses.
use mikrotik_exporter.Prelude.{
  ℕ, ◌+◌, ◌-◌, ◌*◌, ◌^◌, ◌≤◌, ◌<◌, Bool, false, ◌&&◌, Option, none, some, [], ◌∷◌, ◌≡◌, refl, arith,
  ltb, leb, ◌==◌, if◌then◌else◌, All, Bytes, ℤ, pos, negsuc, is_empty,
}

-- `seconds` is `Duration.Seconds` of a bit pattern, `of_unix` a Unix time as a number, and
-- `parse_float` is `strconv.ParseFloat`, with `none` for its error.
pub record Floats (F : Type 0) : Type 0 where
  pub zero_f : F
  pub one_f : F
  pub nan_f : F
  pub seconds : ℕ → F
  pub of_int : ℤ → F
  pub parse_float : Bytes → Option F

abbrev pub is_digit : ℕ → Bool
is_digit c = leb b'0' c && leb c b'9'

-- The value of decimal digits behind `acc`; `none` at any other byte.
unfoldable pub digits_value : ℕ → Bytes → Option ℕ
digits_value acc [] = some acc
digits_value acc (c ∷ s) =
    let rest = digits_value (acc * 10 + (c - b'0')) s in if is_digit c then rest else none

-- At least one digit.
unfoldable pub unsigned : Bytes → Option ℕ
unsigned [] = none
unsigned (c ∷ s) = digits_value 0 (c ∷ s)

abbrev pub int_limit : ℕ
int_limit = 2 ^ 63

-- A value of the range of `int`.
abbrev positive : Option ℕ → Option ℤ
positive none = none
positive (some n) = if ltb n int_limit then some (pos n) else none

abbrev negative : Option ℕ → Option ℤ
negative none = none
negative (some n) =
    if n == 0 then some (pos 0) else if leb n int_limit then some (negsuc (n - 1)) else none

-- `none` is the error of `Atoi`, for a bad byte and for a value out of range alike.
unfoldable pub atoi : Bytes → Option ℤ
unfolding unsigned
atoi [] = none
atoi (c ∷ s) =
    if c == b'-'
    then negative (unsigned s)
    else if c == b'+'
    then positive (unsigned s)
    else positive (unsigned (c ∷ s))

abbrev pub IsDigit : ℕ → Type 0
IsDigit c = (b'0' ≤ c) × (c ≤ b'9')

-- The number that a text of digits stands for.
abbrev pub decimal_from : ℕ → Bytes → ℕ
decimal_from acc [] = acc
decimal_from acc (c ∷ s) = decimal_from (acc * 10 + (c - b'0')) s

abbrev pub decimal : Bytes → ℕ
decimal = decimal_from 0

digits_value-decimal_from :
    (acc : ℕ) (s : Bytes) → All IsDigit s → digits_value acc s ≡ some (decimal_from acc s)
unfolding digits_value
digits_value-decimal_from acc [] h = refl
digits_value-decimal_from acc (c ∷ s) h =
    ground (arith, digits_value-decimal_from (acc * 10 + (c - b'0')) s h.1)

-- A text of digits whose value is an `int` is read as that value.
pub atoi-decimal :
    (s : Bytes)
    → is_empty s ≡ false
    → All IsDigit s
    → decimal s < int_limit
    → atoi s ≡ some (pos (decimal s))
unfolding atoi
atoi-decimal [] e h l = cc
atoi-decimal (c ∷ s) e h l = ground (arith, digits_value-decimal_from 0 (c ∷ s) h)
