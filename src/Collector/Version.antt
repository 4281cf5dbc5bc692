-- ===== src/Collector/Version.antt =====
-- `parseFirmwareVersion` of internal/collector/device_collector.go.
use mikrotik_exporter.Prelude.{
  ℕ, ◌<◌, false, Option, none, some, List, [], ◌∷◌, ◌++◌, ◌≡◌, ◌≢◌, refl, ◌∙◌, ap, arith,
  if◌then◌else◌, Bytes, codes, is_empty, All, All-append, cut_before, split, Lacks,
  cut_before-append, split-append, split_self, value_of, ℤ, pos,
}
use mikrotik_exporter.Proto.Sentence.{Sentence}
use mikrotik_exporter.Convert.Numbers.{atoi, atoi-decimal, IsDigit, decimal, int_limit}
use mikrotik_exporter.Config.Version.{FirmwareVersion}

pub data VersionResult : Type 0 where
  version_is : FirmwareVersion → VersionResult
  invalid_version parse_error : VersionResult

-- The three `Atoi`s; a missing third part is 0.
unfoldable pub version_numbers : Bytes → Option ℤ → Option ℤ → Option ℤ → VersionResult
version_numbers arch (some major) (some minor) (some patch) =
    version_is (record { major = major; minor = minor; patch = patch; architecture = arch })
version_numbers arch (some major) (some minor) none = parse_error
version_numbers arch (some major) none patch = parse_error
version_numbers arch none minor patch = parse_error

unfoldable pub version_parts : Bytes → Bytes × List Bytes → VersionResult
version_parts arch (a, []) = invalid_version
version_parts arch (a, b ∷ []) = version_numbers arch (atoi a) (atoi b) (some (pos 0))
version_parts arch (a, b ∷ c ∷ []) = version_numbers arch (atoi a) (atoi b) (atoi c)
version_parts arch (a, b ∷ c ∷ d ∷ ds) = invalid_version

-- The text in front of the first space.
unfoldable pub parse_version : Bytes → Bytes → VersionResult
parse_version arch version =
    let result = version_parts arch (split b'.' version) in
    if is_empty version then invalid_version else result

unfoldable pub parse_firmware_version : Sentence → VersionResult
parse_firmware_version re =
    parse_version (value_of (codes "architecture-name") re.map)
      (cut_before b' ' (value_of (codes "version") re.map))

-- A number as RouterOS prints it: digits, at least one, with a value that an `int` holds.
abbrev pub IsNumber : Bytes → Type 0
IsNumber s = (is_empty s ≡ false) × All IsDigit s × (decimal s < int_limit)

digits-Lacks : (sep : ℕ) (s : Bytes) → sep < b'0' → All IsDigit s → Lacks sep s
digits-Lacks sep [] l h = tt
digits-Lacks sep (c ∷ s) l h = (ground (arith, h.0), digits-Lacks sep s l h.1)

append-Lacks : (sep : ℕ) (a b : Bytes) → Lacks sep a → Lacks sep b → Lacks sep (a ++ b)
append-Lacks sep a b = All-append (λ c. c ≢ sep) a b

append-not-empty : (a b : Bytes) → is_empty a ≡ false → is_empty (a ++ b) ≡ false
append-not-empty [] b h = cc
append-not-empty (c ∷ a) b h = refl

atoi-IsNumber : (s : Bytes) → IsNumber s → atoi s ≡ some (pos (decimal s))
atoi-IsNumber s n = atoi-decimal s n.0 n.1 n.2

abbrev pub numbers_of : Bytes → Bytes → Bytes → Bytes
numbers_of a b c = a ++ (b'.' ∷ (b ++ (b'.' ∷ c)))

numbers_of-Lacks :
    (a b c : Bytes) → IsNumber a → IsNumber b → IsNumber c → Lacks b' ' (numbers_of a b c)
numbers_of-Lacks a b c p q r =
    let in_a = digits-Lacks b' ' a (omega arith) p.1 in
    let in_b = digits-Lacks b' ' b (omega arith) q.1 in
    let in_c = digits-Lacks b' ' c (omega arith) r.1 in
    append-Lacks b' ' a (b'.' ∷ (b ++ (b'.' ∷ c))) in_a
      (ground arith, append-Lacks b' ' b (b'.' ∷ c) in_b (ground arith, in_c))

split-numbers_of :
    (a b c : Bytes)
    → IsNumber a
    → IsNumber b
    → IsNumber c
    → split b'.' (numbers_of a b c) ≡ (a, b ∷ c ∷ [])
split-numbers_of a b c p q r =
    let in_a = digits-Lacks b'.' a (omega arith) p.1 in
    let in_b = digits-Lacks b'.' b (omega arith) q.1 in
    let in_c = digits-Lacks b'.' c (omega arith) r.1 in
    let last = split_self b'.' c in_c in
    let tail = split-append b'.' b c in_b in
    let whole = split-append b'.' a (b ++ (b'.' ∷ c)) in_a in
    whole ∙ ap (λ x. (a, x.0 ∷ x.1)) (tail ∙ ap (λ y. (b, y.0 ∷ y.1)) last)

parse_version-numbers_of :
    (arch a b c : Bytes)
    → IsNumber a
    → IsNumber b
    → IsNumber c
    → parse_version arch (numbers_of a b c)
      ≡ version_is (record {
        major = pos (decimal a);
        minor = pos (decimal b);
        patch = pos (decimal c);
        architecture = arch;
      })
unfolding parse_version version_parts version_numbers
parse_version-numbers_of arch a b c p q r =
    rw
      (
        split-numbers_of a b c p q r,
        append-not-empty a (b'.' ∷ (b ++ (b'.' ∷ c))) p.0,
        atoi-IsNumber a p,
        atoi-IsNumber b q,
        atoi-IsNumber c r,
      )
      refl

-- A version is read back from its text: three numbers that an `int` holds, joined by dots, then a space and whatever
-- stands behind it (the channel), give those numbers and the reply's architecture.
pub parse_firmware_version-numbers :
    (re : Sentence) (a b c channel : Bytes)
    → IsNumber a
    → IsNumber b
    → IsNumber c
    → value_of (codes "version") re.map ≡ numbers_of a b c ++ b' ' ∷ channel
    → parse_firmware_version re
      ≡ version_is (record {
        major = pos (decimal a);
        minor = pos (decimal b);
        patch = pos (decimal c);
        architecture = value_of (codes "architecture-name") re.map;
      })
unfolding parse_firmware_version
parse_firmware_version-numbers re a b c channel p q r e =
    let version = cut_before-append b' ' _ channel (numbers_of-Lacks a b c p q r) in
    let arch = value_of (codes "architecture-name") re.map in
    ap (λ t. parse_version arch (cut_before b' ' t)) e
    ∙ ap (parse_version arch) version
    ∙ parse_version-numbers_of arch a b c p q r
