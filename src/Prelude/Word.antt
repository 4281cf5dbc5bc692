-- ===== src/Prelude/Word.antt =====
-- An `int64` as its bit pattern, a number below 2 ^ 64, with the operations that wrap around.
use Prim.Native.Nat.{ℕ, suc, ◌+◌, ◌-◌, ◌*◌, ◌%◌, ◌^◌}
use mikrotik_exporter.Prelude.Int.{ℤ, pos, negsuc}

abbrev pub word_size : ℕ
word_size = 2 ^ 64

abbrev pub add64 : ℕ → ℕ → ℕ
add64 a b = (a + b) % word_size

abbrev pub mul64 : ℕ → ℕ → ℕ
mul64 a b = (a * b) % word_size

-- The pattern of -a.
abbrev pub neg64 : ℕ → ℕ
neg64 a = (word_size - a % word_size) % word_size

abbrev pub to_word : ℤ → ℕ
to_word (pos n) = n % word_size
to_word (negsuc n) = neg64 (suc n)
