-- ===== src/Config/Version.antt =====
-- `FirmwareVersion` of internal/config/config.go and its comparison.
pub mod Order
use mikrotik_exporter.Prelude.{
  ℕ, Bool, true, false, List, [], ◌∷◌, if◌then◌else◌, Bytes, contains, ℤ, pos, negsuc, ltb_ℤ,
}

pub record FirmwareVersion : Type 0 where
  pub major : ℤ
  pub minor : ℤ
  pub patch : ℤ
  pub architecture : Bytes

-- The zero value.
abbrev pub no_version : FirmwareVersion
no_version = record { major = pos 0; minor = pos 0; patch = pos 0; architecture = [] }

-- `Compare`: -1, 0 or 1.
unfoldable pub compare_version : FirmwareVersion → ℤ → ℤ → ℤ → ℤ
compare_version f major minor patch =
    if ltb_ℤ f.major major
    then negsuc 0
    else if ltb_ℤ major f.major
    then pos 1
    else if ltb_ℤ f.minor minor
    then negsuc 0
    else if ltb_ℤ minor f.minor
    then pos 1
    else if ltb_ℤ f.patch patch
    then negsuc 0
    else if ltb_ℤ patch f.patch
    then pos 1
    else pos 0

unfoldable pub check_architecture : FirmwareVersion → List Bytes → Bool
check_architecture f expected = contains expected f.architecture
