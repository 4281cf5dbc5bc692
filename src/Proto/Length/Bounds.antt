-- ===== src/Proto/Length/Bounds.antt =====
-- The masks of `encode_length` and `read_length` as arithmetic on one byte, and the four bytes of
-- the buffer as a number.
use mikrotik_exporter.Prelude.{
  ℕ, ◌+◌, ◌*◌, ◌%◌, ◌<◌, bit_and, bit_or, true, ◌&&◌, not, [], ◌∷◌, ◌≡◌, refl, ◌==◌, arith,
  passes_below, passes_below_at, bit_or_byte, word_size, Bytes,
}
use mikrotik_exporter.Proto.Length.{combine, clear, ok, fill_buffer}

-- One byte of a stream.
abbrev pub IsByte : ℕ → Type 0
IsByte b = b < 256

pub combine_step :
    (res v : ℕ) (vs : Bytes)
    → res * 256 < word_size
    → v < 256
    → combine res (v ∷ vs) ≡ combine (res * 256 + v) vs
unfolding combine
combine_step res v vs h k =
    let e : (res * 256) % word_size ≡ res * 256 = omega arith in rw (e, bit_or_byte res v k)

-- The buffer is read as a big-endian number.
pub combine_four :
    (a b c d : ℕ)
    → a < 256
    → b < 256
    → c < 256
    → d < 256
    → combine 0 (a ∷ b ∷ c ∷ d ∷ []) ≡ ((a * 256 + b) * 256 + c) * 256 + d
unfolding combine
combine_four a b c d ha hb hc hd = ground (
  arith,
  combine_step 0 a (b ∷ c ∷ d ∷ []),
  combine_step a b (c ∷ d ∷ []),
  combine_step (a * 256 + b) c (d ∷ []),
  combine_step ((a * 256 + b) * 256 + c) d [],
)

-- A first byte of `encode_length`: the mask that `read_length` tries first misses it, and its own
-- finds it and gives the bits below back.
abbrev marked : ℕ → ℕ → ℕ
marked mark h = bit_or h mark

table_two :
    passes_below 64 (λ h.
      not (bit_and (marked 0x80 h) 0x80 == 0)
      && (bit_and (marked 0x80 h) 0xc0 == 0x80)
      && (clear 0xc0 (marked 0x80 h) == h))
    ≡ true
unfolding passes_below
table_two = refl

table_three :
    passes_below 32 (λ h.
      not (bit_and (marked 0xc0 h) 0x80 == 0)
      && not (bit_and (marked 0xc0 h) 0xc0 == 0x80)
      && (bit_and (marked 0xc0 h) 0xe0 == 0xc0)
      && (clear 0xe0 (marked 0xc0 h) == h))
    ≡ true
unfolding passes_below
table_three = refl

table_four :
    passes_below 16 (λ h.
      not (bit_and (marked 0xe0 h) 0x80 == 0)
      && not (bit_and (marked 0xe0 h) 0xc0 == 0x80)
      && not (bit_and (marked 0xe0 h) 0xe0 == 0xc0)
      && (bit_and (marked 0xe0 h) 0xf0 == 0xe0)
      && (clear 0xf0 (marked 0xe0 h) == h))
    ≡ true
unfolding passes_below
table_four = refl

table_one : passes_below 128 (λ h. bit_and h 0x80 == 0) ≡ true
unfolding passes_below
table_one = refl

-- The buffer for each form of the length, with the rest of the stream behind it.
pub fill_buffer_one : (h : ℕ) (s : Bytes) → h < 128 → fill_buffer h s ≡ (ok (0 ∷ 0 ∷ 0 ∷ h ∷ []), s)
unfolding fill_buffer
fill_buffer_one h s k = ground (arith, passes_below_at _ 128 h k table_one)

pub fill_buffer_two :
    (h b : ℕ) (s : Bytes)
    → h < 64
    → fill_buffer (bit_or h 0x80) (b ∷ s) ≡ (ok (0 ∷ 0 ∷ h ∷ b ∷ []), s)
unfolding fill_buffer
fill_buffer_two h b s k = ground (arith, passes_below_at _ 64 h k table_two)

pub fill_buffer_three :
    (h b c : ℕ) (s : Bytes)
    → h < 32
    → fill_buffer (bit_or h 0xc0) (b ∷ c ∷ s) ≡ (ok (0 ∷ h ∷ b ∷ c ∷ []), s)
unfolding fill_buffer
fill_buffer_three h b c s k = ground (arith, passes_below_at _ 32 h k table_three)

pub fill_buffer_four :
    (h b c d : ℕ) (s : Bytes)
    → h < 16
    → fill_buffer (bit_or h 0xe0) (b ∷ c ∷ d ∷ s) ≡ (ok (h ∷ b ∷ c ∷ d ∷ []), s)
unfolding fill_buffer
fill_buffer_four h b c d s k = ground (arith, passes_below_at _ 16 h k table_four)

pub fill_buffer_five :
    (a b c d : ℕ) (s : Bytes) → fill_buffer 0xf0 (a ∷ b ∷ c ∷ d ∷ s) ≡ (ok (a ∷ b ∷ c ∷ d ∷ []), s)
unfolding fill_buffer
fill_buffer_five a b c d s = ground arith
