-- ===== src/Config/Version/Order.antt =====
-- `Compare` orders versions by their three numbers, the first that differs deciding.
use mikrotik_exporter.Prelude.{
  ◌≡◌, ◌⊎◌, inl, inr, sym, arith, ℤ, pos, negsuc, ltb_ℤ, ◌<ℤ◌, Bool-cases,
}
use mikrotik_exporter.Config.Version.{FirmwareVersion, compare_version}

-- The order of the three numbers, the first counting most.
abbrev pub Older : ℤ × ℤ × ℤ → ℤ × ℤ × ℤ → Type 0
Older (a, b, c) (x, y, z) = (a <ℤ x) ⊎ ((a ≡ x) × (b <ℤ y)) ⊎ ((a ≡ x) × (b ≡ y) × (c <ℤ z))

abbrev pub numbers : FirmwareVersion → ℤ × ℤ × ℤ
numbers f = (f.major, f.minor, f.patch)

pub data Trichotomy (a b : ℤ) : Type 0 where
  less : a <ℤ b → Trichotomy a b
  equal : a ≡ b → Trichotomy a b
  greater : b <ℤ a → Trichotomy a b

trichotomy : (a b : ℤ) → Trichotomy a b
trichotomy a b = elim (Bool-cases (ltb_ℤ a b)) [
  | inl l ↦ less (ground arith)
  | inr l ↦ elim (Bool-cases (ltb_ℤ b a)) [
    | inl g ↦ greater (ground arith)
    | inr g ↦ equal (ground arith)
  ]
]

-- `Compare` is -1 and the version is older, or 0 and it has the same three numbers, or 1 and it is
-- newer; the order is by the first number that differs.
pub compare_version-Older :
    (f : FirmwareVersion) (x y z : ℤ)
    → ((compare_version f x y z ≡ negsuc 0) × Older (numbers f) (x, y, z))
      ⊎ ((compare_version f x y z ≡ pos 0) × (numbers f ≡ (x, y, z)))
      ⊎ ((compare_version f x y z ≡ pos 1) × Older (x, y, z) (numbers f))
unfolding compare_version
compare_version-Older f x y z = elim (trichotomy f.major x) [
  | less p ↦ inl (ground arith, inl p)
  | greater p ↦ inr (inr (ground arith, inl p))
  | equal e ↦ elim (trichotomy f.minor y) [
    | less p ↦ inl (ground arith, inr (inl (e, p)))
    | greater p ↦ inr (inr (ground arith, inr (inl (sym e, p))))
    | equal d ↦ elim (trichotomy f.patch z) [
      | less p ↦ inl (ground arith, inr (inr (e, d, p)))
      | greater p ↦ inr (inr (ground arith, inr (inr (sym e, sym d, p))))
      | equal c ↦ inr (inl (ground arith, ground arith))
    ]
  ]
]

-- The order is strict: no version is older than another and newer too.
pub Older-asymm : (a b c x y z : ℤ) → Older (a, b, c) (x, y, z) → Older (x, y, z) (a, b, c) → ⊥
Older-asymm a b c x y z h k = ground arith
