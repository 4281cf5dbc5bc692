-- ===== src/Proto/Length/RoundTrip.antt =====
-- `read_length` after `encode_length`.
use mikrotik_exporter.Prelude.{
  ℕ, ◌+◌, ◌*◌, ◌/◌, ◌%◌, ◌^◌, ◌<◌, bit_or, bit_and_byte, [], ◌∷◌, ◌++◌, ◌≡◌, arith, Bytes,
}
use mikrotik_exporter.Proto.Length.{fill_buffer, encode_length, read_length, ok}
use mikrotik_exporter.Proto.Length.Bounds.{
  combine_four, fill_buffer_one, fill_buffer_two, fill_buffer_three, fill_buffer_four,
  fill_buffer_five,
}

read_length_of :
    (h a b c d : ℕ) (s rest : Bytes)
    → fill_buffer h s ≡ (ok (a ∷ b ∷ c ∷ d ∷ []), rest)
    → a < 256
    → b < 256
    → c < 256
    → d < 256
    → read_length (h ∷ s) ≡ (ok (((a * 256 + b) * 256 + c) * 256 + d), rest)
unfolding read_length
read_length_of h a b c d s rest e ha hb hc hd = ground (arith, e, combine_four a b c d ha hb hc hd)

-- The length that is read back from `encode_length l` is `l` modulo 2 ^ 32, with nothing of what
-- follows consumed.
pub read_length-encode_length :
    (l : ℕ) (rest : Bytes) → read_length (encode_length l ++ rest) ≡ (ok (l % 2 ^ 32), rest)
unfolding encode_length
read_length-encode_length l rest = ground (
  arith,
  bit_and_byte l,
  bit_and_byte (l / 256),
  bit_and_byte (l / 65536),
  bit_and_byte (l / 16777216),
  fill_buffer_one l rest,
  fill_buffer_two (l / 256) (l % 256) rest,
  fill_buffer_three (l / 65536) (l / 256 % 256) (l % 256) rest,
  fill_buffer_four (l / 16777216) (l / 65536 % 256) (l / 256 % 256) (l % 256) rest,
  fill_buffer_five (l / 16777216 % 256) (l / 65536 % 256) (l / 256 % 256) (l % 256) rest,
  read_length_of l 0 0 0 l rest rest,
  read_length_of (bit_or (l / 256) 0x80) 0 0 (l / 256) (l % 256) (l % 256 ∷ rest) rest,
  read_length_of (bit_or (l / 65536) 0xc0) 0 (l / 65536) (l / 256 % 256) (l % 256)
      (l / 256 % 256 ∷ l % 256 ∷ rest) rest,
  read_length_of (bit_or (l / 16777216) 0xe0) (l / 16777216) (l / 65536 % 256) (l / 256 % 256)
      (l % 256) (l / 65536 % 256 ∷ l / 256 % 256 ∷ l % 256 ∷ rest) rest,
  read_length_of 0xf0 (l / 16777216 % 256) (l / 65536 % 256) (l / 256 % 256) (l % 256)
      (l / 16777216 % 256 ∷ l / 65536 % 256 ∷ l / 256 % 256 ∷ l % 256 ∷ rest) rest,
)
