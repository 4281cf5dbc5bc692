-- ===== src/Prelude/Bits.antt =====
-- Facts about `bit_and` and `bit_or` at variables: by evaluation below a bound, and by the lowest
-- digit, for both operations at once.
use Prim.Native.Nat.{
  ℕ, zero, suc, ◌+◌, ◌*◌, ◌/◌, ◌%◌, ◌≤◌, ◌<◌, min, max, bit_and, bit_or, digits, bit_and-bitwise,
  bit_or-bitwise,
}
use mathlib.Core.Path.{◌≡◌, refl, sym, ◌∙◌}
use mathlib.Core.Bool.{Bool, true, ◌&&◌}
use native.Mathlib.Omega.{arith}

-- The test passes at each number below the bound.
unfoldable pub passes_below : ℕ → (ℕ → Bool) → Bool
passes_below zero test = true
passes_below (suc k) test = passes_below k test && test k

pub passes_below_at :
    (test : ℕ → Bool) (k i : ℕ) → i < k → passes_below k test ≡ true → test i ≡ true
unfolding passes_below
passes_below_at test zero i below all = absurd (omega arith)
passes_below_at test (suc k) i below all = ground (arith, passes_below_at test k i)

-- An operation that is made digit by digit: `start` where the left number is used up, and `f` at
-- each pair of digits.
module _ (start : ℕ → ℕ) (f : ℕ → ℕ → ℕ) (op : ℕ → ℕ → ℕ)
    (by_digits : (a b : ℕ) → op a b ≡ digits start f a a b) where
  used_up : (fuel b : ℕ) → digits start f fuel 0 b ≡ start b
  used_up zero b = refl
  used_up (suc fuel) b = refl

  op-zero : (b : ℕ) → op 0 b ≡ start b
  op-zero b = by_digits 0 b ∙ used_up 0 b

  -- Any fuel that is not below the left number gives the same.
  fuel_irrelevant :
      (a b fuel more : ℕ) → a ≤ fuel → a ≤ more → digits start f fuel a b ≡ digits start f more a b
  fuel_irrelevant zero b fuel more p q = used_up fuel b ∙ sym (used_up more b)
  fuel_irrelevant (suc a) b zero more p q = absurd (omega arith)
  fuel_irrelevant (suc a) b (suc fuel) zero p q = absurd (omega arith)
  fuel_irrelevant (suc a) b (suc fuel) (suc more) p q =
      omega (arith, fuel_irrelevant (suc a / 2) (b / 2) fuel more (omega arith) (omega arith))

  lowest_digit : (a b : ℕ) → op (suc a) b ≡ op (suc a / 2) (b / 2) * 2 + f (suc a % 2) (b % 2)
  lowest_digit a b =
      let rest = fuel_irrelevant (suc a / 2) (b / 2) a (suc a / 2) (omega arith) (omega arith) in
      omega (arith, by_digits (suc a) b, by_digits (suc a / 2) (b / 2), rest)

-- The lowest digit, and the rest.
or_halves : (a b : ℕ) → bit_or a b ≡ bit_or (a / 2) (b / 2) * 2 + max (a % 2) (b % 2)
or_halves (suc a) b = lowest_digit (λ c. c) max bit_or bit_or-bitwise a b
or_halves zero b = omega (
  arith,
  op-zero (λ c. c) max bit_or bit_or-bitwise b,
  op-zero (λ c. c) max bit_or bit_or-bitwise (b / 2),
)

and_halves : (a b : ℕ) → bit_and a b ≡ bit_and (a / 2) (b / 2) * 2 + min (a % 2) (b % 2)
and_halves (suc a) b = lowest_digit (λ c. 0) min bit_and bit_and-bitwise a b
and_halves zero b = omega (
  arith,
  op-zero (λ c. 0) min bit_and bit_and-bitwise b,
  op-zero (λ c. 0) min bit_and bit_and-bitwise (b / 2),
)

-- With no digits on the right, below a bound on the left number.
or_nothing : (bound a : ℕ) → a ≤ bound → bit_or a 0 ≡ a
or_nothing bound zero h = op-zero (λ c. c) max bit_or bit_or-bitwise 0
or_nothing zero (suc a) h = absurd (omega arith)
or_nothing (suc bound) (suc a) h =
    let rest = or_nothing bound (suc a / 2) (omega arith) in
    omega (arith, or_halves (suc a) 0, rest)

and_nothing : (bound a : ℕ) → a ≤ bound → bit_and a 0 ≡ 0
and_nothing bound zero h = op-zero (λ c. 0) min bit_and bit_and-bitwise 0
and_nothing zero (suc a) h = absurd (omega arith)
and_nothing (suc bound) (suc a) h =
    let rest = and_nothing bound (suc a / 2) (omega arith) in
    omega (arith, and_halves (suc a) 0, rest)

-- The number moved left by `k` places.
abbrev moved : ℕ → ℕ → ℕ
moved zero a = a
moved (suc k) a = moved k a * 2

-- The places that a move leaves free take any number that fits in them.
or_fills : (k a b : ℕ) → b < moved k 1 → bit_or (moved k a) b ≡ moved k a + b
or_fills zero a b h =
    let nothing : b ≡ 0 = omega (arith, h) in
    rw nothing (omega (arith, or_nothing a a (omega arith)))
or_fills (suc k) a b h =
    let half : moved k a * 2 / 2 ≡ moved k a = omega arith in
    let rest = or_fills k a (b / 2) (omega (arith, h)) in
    rw (or_halves (moved k a * 2) b, half, rest) (omega arith)

-- `a << 8 | b` is a sum where `b` is a byte.
pub bit_or_byte : (a b : ℕ) → b < 256 → bit_or (a * 256) b ≡ a * 256 + b
bit_or_byte a b h =
    let places : a * 256 ≡ moved 8 a = omega arith in rw places (or_fills 8 a b (omega (arith, h)))

-- A mask of `k` ones, and the digits that it keeps.
abbrev ones : ℕ → ℕ
ones zero = 0
ones (suc k) = ones k * 2 + 1

abbrev kept : ℕ → ℕ → ℕ
kept zero a = 0
kept (suc k) a = kept k (a / 2) * 2 + a % 2

and_keeps : (k a : ℕ) → bit_and a (ones k) ≡ kept k a
and_keeps zero a = and_nothing a a (omega arith)
and_keeps (suc k) a =
    let half : (ones k * 2 + 1) / 2 ≡ ones k = omega arith in
    rw (and_halves a (ones k * 2 + 1), half, and_keeps k (a / 2)) (omega arith)

-- `x & 0xFF` is the remainder by 256.
pub bit_and_byte : (a : ℕ) → bit_and a 0xff ≡ a % 256
bit_and_byte a = omega (arith, and_keeps 8 a)
