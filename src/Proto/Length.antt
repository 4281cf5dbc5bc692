-- ===== src/Proto/Length.antt =====
-- The length in front of each word: `encodeLength` of routeros/proto/writer.go and `readLength` of
-- routeros/proto/reader.go. A stream is the list of the bytes that are still to come, and it ends
-- with an error. A reader's step gives its result and the stream behind what it took; it keeps the
-- stream also when it fails, since the connection keeps it.
pub mod Bounds
pub mod RoundTrip
use mikrotik_exporter.Prelude.{
  ℕ, ◌+◌, ◌*◌, ◌-◌, ◌/◌, ◌%◌, ◌^◌, bit_and, bit_or, Bool, true, false, List, [], ◌∷◌, ◌++◌, ltb,
  ◌==◌, if◌then◌else◌, length, take, drop, Bytes, word_size, ◌≡◌, refl, ap,
}

-- Why a read fails. `out_of_fuel` is the model's own: it ends a loop that the code leaves unbounded,
-- and the readers are shown never to give it.
pub data ReadError : Type 0 where
  end_of_stream : ReadError
  undecodable : Bytes → ReadError
  invalid_word : Bytes → ReadError
  out_of_fuel : ReadError

pub data Result {ℓ} (A : Type ℓ) : Type ℓ where
  ok : A → Result A
  err : ReadError → Result A

abbrev pub Read : Type 0 → Type 0
Read A = Bytes → Result A × Bytes

infixl 5 ◌>>=◌
abbrev pub ◌>>=◌ : {A B : Type 0} → Read A → (A → Read B) → Read B
◌>>=◌ m f s = let (r, s') = m s in elim r [ ok a ↦ f a s' | err e ↦ (err e, s') ]

-- What holds of each way in which a bind can go holds of it.
pub bind_cases {ℓ} :
    {A B : Type 0} (P : Result B × Bytes → Type ℓ) (m : Read A) (f : A → Read B) (s : Bytes)
    → ((e : ReadError) → (m s).0 ≡ err e → P (err e, (m s).1))
    → ((a : A) → (m s).0 ≡ ok a → P (f a (m s).1))
    → P ((m >>= f) s)
bind_cases {A} {B} P m f s bad good = go (m s).0 refl
  where
    go : (r : Result A) → (m s).0 ≡ r → P (elim r [ ok a ↦ f a (m s).1 | err e ↦ (err e, (m s).1) ])
    go (ok a) h = good a h
    go (err e) h = bad e h

pub bind_ok :
    {A B : Type 0} (m : Read A) (f : A → Read B) (s : Bytes) {a : A} {t : Bytes}
    → m s ≡ (ok a, t)
    → (m >>= f) s ≡ f a t
bind_ok {A} {B} m f s h =
    let after : Result A × Bytes → Result B × Bytes =
      λ x. elim x.0 [ ok a ↦ f a x.1 | err e ↦ (err e, x.1) ] in
    ap after h

abbrev pub pure : {A : Type 0} → A → Read A
pure a s = (ok a, s)

-- `io.ReadFull`, and `io.ReadAtLeast` into a buffer of just that size: a short stream is used up.
unfoldable pub read_exact : ℕ → Read Bytes
read_exact n s = if ltb (length s) n then (err end_of_stream, []) else (ok (take n s), drop n s)

-- The lowest eight bits.
abbrev pub byte : ℕ → ℕ
byte x = bit_and x 0xff

abbrev pub shr : ℕ → ℕ → ℕ
shr x k = x / 2 ^ k

unfoldable pub encode_length : ℕ → Bytes
encode_length l =
    if ltb l 0x80
    then byte l ∷ []
    else if ltb l 0x4000
    then bit_or (byte (shr l 8)) 0x80 ∷ byte l ∷ []
    else if ltb l 0x200000
    then bit_or (byte (shr l 16)) 0xc0 ∷ byte (shr l 8) ∷ byte l ∷ []
    else if ltb l 0x10000000
    then bit_or (byte (shr l 24)) 0xe0 ∷ byte (shr l 16) ∷ byte (shr l 8) ∷ byte l ∷ []
    else 0xf0 ∷ byte (shr l 24) ∷ byte (shr l 16) ∷ byte (shr l 8) ∷ byte l ∷ []

-- `(res & ^mask) & 0xFF` on an `int64`.
abbrev clear : ℕ → ℕ → ℕ
clear mask res = byte (bit_and res (word_size - 1 - mask))

-- `res = res<<8 | int64(v)` over the bytes of the buffer.
unfoldable pub combine : ℕ → Bytes → ℕ
combine res [] = res
combine res (v ∷ vs) = combine (bit_or ((res * 256) % word_size) v) vs

-- The four bytes of `buf` after the switch on the first byte: zeros in front of what was set.
unfoldable pub fill_buffer : ℕ → Read Bytes
unfolding read_exact
fill_buffer res =
    if bit_and res 0x80 == 0x00
    then pure (0 ∷ 0 ∷ 0 ∷ res ∷ [])
    else if bit_and res 0xc0 == 0x80
    then (do more ← read_exact 1; pure (0 ∷ 0 ∷ clear 0xc0 res ∷ more))
    else if bit_and res 0xe0 == 0xc0
    then (do more ← read_exact 2; pure (0 ∷ clear 0xe0 res ∷ more))
    else if bit_and res 0xf0 == 0xe0
    then (do more ← read_exact 3; pure (clear 0xf0 res ∷ more))
    else if bit_and res 0xf8 == 0xf0
    then read_exact 4
    else pure (0 ∷ 0 ∷ 0 ∷ res ∷ [])

unfoldable pub read_length : Read ℕ
read_length [] = (err end_of_stream, [])
read_length (b ∷ s) = (do buf ← fill_buffer b; pure (combine 0 buf)) s
