-- ===== src/Prelude/Text.antt =====
-- Go strings and byte slices as lists of byte values, with the functions of `bytes` and `strings`
-- that the program calls.
use Prim.Native.Char.{code}
use Prim.Native.String.{String}
use Prim.Native.Nat.{ℕ, ◌+◌}
use mathlib.Core.Path.{◌≡◌, refl}
use mathlib.Core.Logic.{◌↔◌, ◌≢◌}
use mathlib.Core.Bool.{Bool, true, false, ◌&&◌, ◌||◌}
use mathlib.Core.List.{List, [], ◌∷◌, ◌++◌}
use mathlib.Core.Option.{Option, none, some}
use native.Mathlib.Omega.{arith}
use mikrotik_exporter.Prelude.Tests.{leb, ◌==◌, if◌then◌else◌}
use mikrotik_exporter.Prelude.Lists.{All}

abbrev pub Bytes : Type 0
Bytes = List ℕ

-- The bytes of an ASCII literal.
abbrev pub codes : String → Bytes
codes String.[] = []
codes (String.◌∷◌ c s) = code c ∷ codes s

-- `a == b` on strings, `bytes.Equal`.
unfoldable pub equal : Bytes → Bytes → Bool
equal [] [] = true
equal (x ∷ xs) (y ∷ ys) = x == y && equal xs ys
equal _ _ = false

pub equal_iff : (s t : Bytes) → (equal s t ≡ true) ↔ (s ≡ t)
unfolding equal
equal_iff [] [] = ground arith
equal_iff [] (d ∷ t) = ground arith
equal_iff (c ∷ s) [] = ground arith
equal_iff (c ∷ s) (d ∷ t) = ground (arith, equal_iff s t)

pub equal_refl : (a : Bytes) → equal a a ≡ true
equal_refl a = (equal_iff a a).1 refl

-- `s == ""`.
abbrev pub is_empty : Bytes → Bool
is_empty [] = true
is_empty (_ ∷ _) = false

-- `slices.Contains`.
unfoldable pub contains : List Bytes → Bytes → Bool
contains [] s = false
contains (x ∷ xs) s = equal x s || contains xs s

-- `strings.HasPrefix`, with what stands behind the prefix.
unfoldable pub strip_prefix : Bytes → Bytes → Option Bytes
strip_prefix [] s = some s
strip_prefix (p ∷ ps) [] = none
strip_prefix (p ∷ ps) (c ∷ s) = if p == c then strip_prefix ps s else none

pub strip_prefix-append : (p s : Bytes) → strip_prefix p (p ++ s) ≡ some s
unfolding strip_prefix
strip_prefix-append [] s = refl
strip_prefix-append (c ∷ p) s = ground (arith, strip_prefix-append p s)

-- The parts before and behind the first `sep`: `SplitN(s, sep, 2)` and `Cut` for one byte.
unfoldable pub cut : ℕ → Bytes → Option (Bytes × Bytes)
cut sep [] = none
cut sep (c ∷ s) =
    let found = cut sep s in
    if c == sep then some ([], s) else elim found [ none ↦ none | some (a, b) ↦ some (c ∷ a, b) ]

-- The part before the first `sep`, or all of it.
unfoldable pub cut_before : ℕ → Bytes → Bytes
cut_before sep [] = []
cut_before sep (c ∷ s) = let rest = cut_before sep s in if c == sep then [] else c ∷ rest

-- `strings.Split` for one byte: never empty.
unfoldable pub split : ℕ → Bytes → Bytes × List Bytes
split sep [] = ([], [])
split sep (c ∷ s) =
    let (first, others) = split sep s in
    if c == sep then ([], first ∷ others) else (c ∷ first, others)

-- No byte of the text is `sep`.
abbrev pub Lacks : ℕ → Bytes → Type 0
Lacks sep s = All (λ c. c ≢ sep) s

pub cut-append : (sep : ℕ) (a b : Bytes) → Lacks sep a → cut sep (a ++ sep ∷ b) ≡ some (a, b)
unfolding cut
cut-append sep [] b h = ground arith
cut-append sep (c ∷ a) b h = ground (arith, cut-append sep a b h.1)

pub cut-none : (sep : ℕ) (a : Bytes) → Lacks sep a → cut sep a ≡ none
unfolding cut
cut-none sep [] h = refl
cut-none sep (c ∷ a) h = ground (arith, cut-none sep a h.1)

pub cut_before-Lacks : (sep : ℕ) (a : Bytes) → Lacks sep (cut_before sep a)
unfolding cut_before
cut_before-Lacks sep [] = tt
cut_before-Lacks sep (c ∷ a) = ground (arith, cut_before-Lacks sep a)

pub cut_before-append : (sep : ℕ) (a b : Bytes) → Lacks sep a → cut_before sep (a ++ sep ∷ b) ≡ a
unfolding cut_before
cut_before-append sep [] b h = ground arith
cut_before-append sep (c ∷ a) b h = ground (arith, cut_before-append sep a b h.1)

pub cut_before_self : (sep : ℕ) (a : Bytes) → Lacks sep a → cut_before sep a ≡ a
unfolding cut_before
cut_before_self sep [] h = refl
cut_before_self sep (c ∷ a) h = ground (arith, cut_before_self sep a h.1)

pub split-append :
    (sep : ℕ) (a b : Bytes)
    → Lacks sep a
    → split sep (a ++ sep ∷ b) ≡ (a, (split sep b).0 ∷ (split sep b).1)
unfolding split
split-append sep [] b h = ground arith
split-append sep (c ∷ a) b h = ground (arith, split-append sep a b h.1)

pub split_self : (sep : ℕ) (a : Bytes) → Lacks sep a → split sep a ≡ (a, [])
unfolding split
split_self sep [] h = refl
split_self sep (c ∷ a) h = ground (arith, split_self sep a h.1)

-- `strings.ToLower` on ASCII letters.
unfoldable pub to_lower : Bytes → Bytes
to_lower [] = []
to_lower (c ∷ s) = (if leb b'A' c && leb c b'Z' then c + 32 else c) ∷ to_lower s

-- The white space of ASCII: tab, line feed, vertical tab, form feed, carriage return, space.
abbrev pub is_space : ℕ → Bool
is_space c = c == 32 || (leb 9 c && leb c 13)

abbrev pub trim_left : Bytes → Bytes
trim_left [] = []
trim_left (c ∷ s) = if is_space c then trim_left s else c ∷ s

abbrev pub trim_right : Bytes → Bytes
trim_right [] = []
trim_right (c ∷ s) = let rest = trim_right s in if is_empty rest && is_space c then [] else c ∷ rest

-- `strings.TrimSpace` of an ASCII text.
unfoldable pub trim_space : Bytes → Bytes
trim_space s = trim_right (trim_left s)

abbrev pub until_space : Bytes → Bytes
until_space [] = []
until_space (c ∷ s) = let rest = until_space s in if is_space c then [] else c ∷ rest

-- `strings.Fields(s)[0]` of an ASCII text; `none` is the panic where there is no field.
unfoldable pub first_field : Bytes → Option Bytes
first_field s = let field = until_space (trim_left s) in if is_empty field then none else some field
