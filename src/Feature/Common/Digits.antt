-- ===== src/Feature/Common/Digits.antt =====
-- What `strconv.Itoa` writes for a count is read back as the count.
use mikrotik_exporter.Prelude.{
  ℕ, zero, suc, ◌+◌, ◌-◌, ◌*◌, ◌/◌, ◌%◌, ◌<◌, Bool, true, false, some, [], ◌∷◌, ◌++◌, ◌≡◌, refl,
  ◌∙◌, arith, if◌then◌else◌, ltb, All, All-append, Bytes, is_empty, pos,
}
use mikrotik_exporter.Convert.Numbers.{
  decimal, decimal_from, IsDigit, atoi, atoi-decimal, int_limit,
}
use mikrotik_exporter.Feature.Common.{itoa, itoa_on}

decimal_from-append :
    (s : Bytes) (acc c : ℕ) → decimal_from acc (s ++ c ∷ []) ≡ decimal_from acc s * 10 + (c - b'0')
decimal_from-append [] acc c = refl
decimal_from-append (d ∷ s) acc c = decimal_from-append s _ c

append-is_empty : (s : Bytes) (c : ℕ) → is_empty (s ++ c ∷ []) ≡ false
append-is_empty [] c = refl
append-is_empty (d ∷ s) c = refl

-- A text of digits that stands for the number.
abbrev Writes : ℕ → Bytes → Type 0
Writes n s = (decimal s ≡ n) × All IsDigit s × (is_empty s ≡ false)

itoa_on-Writes : (fuel n : ℕ) → n < fuel → Writes n (itoa_on fuel n)
itoa_on-Writes zero n h = absurd (omega arith)
itoa_on-Writes (suc fuel) n h = go (ltb n 10) refl (λ k. itoa_on-Writes fuel (n / 10) k)
  where
    go :
        (b : Bool)
        → ltb n 10 ≡ b
        → (n / 10 < fuel → Writes (n / 10) (itoa_on fuel (n / 10)))
        → Writes n (if b then (b'0' + n) ∷ [] else itoa_on fuel (n / 10) ++ (b'0' + n % 10) ∷ [])
    go true e ih = (omega arith, ((omega arith, ground arith), tt), refl)
    go false e ih =
        let big : 10 < suc n = ground (arith, e) in
        let (d, ds, ne) = ih (omega arith) in
        (
          decimal_from-append (itoa_on fuel (n / 10)) 0 (b'0' + n % 10) ∙ omega (arith, d),
          All-append IsDigit (itoa_on fuel (n / 10)) _ ds ((omega arith, omega arith), tt),
          append-is_empty (itoa_on fuel (n / 10)) _,
        )

-- A count below 2^63 that `strconv.Itoa` writes is read back by `strconv.Atoi`.
atoi-itoa : (n : ℕ) → n < int_limit → atoi (itoa n) ≡ some (pos n)
unfolding itoa
atoi-itoa n h =
    let (d, ds, ne) = itoa_on-Writes (suc n) n (omega arith) in
    rw (atoi-decimal (itoa_on (suc n) n) ne ds (omega (arith, d, h)), d) refl
