-- ===== src/Config/Load.antt =====
-- The whole configuration: `Config` of internal/config/config.go, its validation and `Load`. What
-- YAML makes of the file is the argument of `load`. Maps are walked in the order of their list. A
-- write into a nil map is a panic.
pub mod Valid
pub mod Lookup
pub mod Enabled
use mikrotik_exporter.Prelude.{
  ℕ, Bool, true, false, Option, none, some, List, [], ◌∷◌, ◌++◌, map, if◌then◌else◌, Bytes, equal,
  is_empty, contains, Dict, lookup, insert,
}
use mikrotik_exporter.Config.Features.{
  FeatureConf, Features, resource_key, validate_features, fix_features, feature_names,
}
use mikrotik_exporter.Config.Device.{
  Device, ConfigError, unknown_feature, validate_device, filter_devices,
}

pub record Config : Type 0 where
  pub features : Features
  pub profiles : Dict Features
  pub devices : List Device

-- A result, the errors of a validation, or a panic.
pub data Outcome (A : Type 0) : Type 0 where
  done : A → Outcome A
  failed : List ConfigError → Outcome A
  panicked : Outcome A

-- `features["resource"] = nil`.
abbrev pub enable_resource : Features → Outcome Features
enable_resource none = panicked
enable_resource (some m) = done (some (insert resource_key none m))

-- The profile behind its validation, in front of those validated after it.
abbrev pub cons_profile :
    Bytes → Outcome Features → Outcome (Dict Features) → Outcome (Dict Features)
cons_profile name (failed es) rest = failed es
cons_profile name panicked rest = panicked
cons_profile name (done f) (done ps) = done ((name, f) ∷ ps)
cons_profile name (done f) (failed es) = failed es
cons_profile name (done f) panicked = panicked

abbrev pub validate_one : List Bytes → Features → Outcome Features
validate_one unknown f = elim unknown [
  | [] ↦ enable_resource f
  | u ∷ us ↦ failed (map unknown_feature (u ∷ us))
]

-- The first loop of `Config.validate`: it ends at the first profile with an error.
unfoldable pub validate_profiles : List Bytes → Dict Features → Outcome (Dict Features)
validate_profiles collectors [] = done []
validate_profiles collectors ((name, f) ∷ ps) =
    cons_profile name (validate_one (validate_features collectors f) f)
      (validate_profiles collectors ps)

-- The second loop: the errors of all devices.
unfoldable pub device_errors : Dict Features → List Device → List ConfigError
device_errors profiles [] = []
device_errors profiles (d ∷ ds) = validate_device d profiles ++ device_errors profiles ds

abbrev pub check_devices : Config → List ConfigError → Outcome Config
check_devices c [] = done c
check_devices c (e ∷ es) = failed (e ∷ es)

abbrev pub with_profiles : Config → Outcome (Dict Features) → Outcome Config
with_profiles c (done ps) = check_devices (record c { profiles = ps }) (device_errors ps c.devices)
with_profiles c (failed es) = failed es
with_profiles c panicked = panicked

-- `Config.validate`, with the profiles as it leaves them.
unfoldable pub validate_config : List Bytes → Config → Outcome Config
validate_config collectors c = with_profiles c (validate_profiles collectors c.profiles)

abbrev pub fix_profiles : Dict Features → Dict Features
fix_profiles [] = []
fix_profiles ((name, f) ∷ ps) = (name, fix_features f) ∷ fix_profiles ps

-- `Config.fix`.
unfoldable pub fix_config : Config → Config
fix_config c = record c { features = fix_features c.features; profiles = fix_profiles c.profiles }

abbrev pub fixed : Outcome Config → Outcome Config
fixed (done c) = done (fix_config c)
fixed (failed es) = failed es
fixed panicked = panicked

abbrev pub or_empty : Features → Dict FeatureConf
or_empty none = []
or_empty (some m) = m

-- The configuration in front of `cfg.validate`.
abbrev pub prepared : Config → Config
prepared c = record c {
  features = some (insert resource_key none (or_empty c.features));
  devices = filter_devices c.devices;
}

abbrev pub load_checked : List Bytes → Config → List Bytes → Outcome Config
load_checked collectors c [] = fixed (validate_config collectors (prepared c))
load_checked collectors c (u ∷ us) = failed (map unknown_feature (u ∷ us))

-- `Load` behind `yaml.Unmarshal`.
unfoldable pub load : List Bytes → Config → Outcome Config
load collectors c = load_checked collectors c (validate_features collectors c.features)

-- `DeviceFeatures` for a device that was found; `none` is a panic.
abbrev pub features_of : Config → Device → Option Features
features_of c d = if is_empty d.profile then some c.features else lookup d.profile c.profiles

abbrev pub find_named : List Device → Bytes → Option Device
find_named [] name = none
find_named (d ∷ ds) name = if equal d.name name then some d else find_named ds name

-- `FindDevice`: the first device of that name; `none` is a panic.
unfoldable pub find_device : Config → Bytes → Option Device
find_device c name = find_named c.devices name

unfoldable pub device_features : Config → Bytes → Option Features
device_features c name = elim (find_named c.devices name) [ none ↦ none | some d ↦ features_of c d ]

-- A set of names: each is put in once.
unfoldable pub add_names : List Bytes → List Bytes → List Bytes
add_names seen [] = seen
add_names seen (name ∷ names) =
    add_names (if contains seen name then seen else seen ++ name ∷ []) names

abbrev pub device_names : Config → Device → Option (List Bytes)
device_names c d =
    if is_empty d.profile
    then some (feature_names c.features)
    else elim (device_features c d.name) [ none ↦ none | some f ↦ some (feature_names f) ]

unfoldable pub enabled_of : Config → List Bytes → List Device → Option (List Bytes)
enabled_of c seen [] = some seen
enabled_of c seen (d ∷ ds) = elim (device_names c d) [
  | none ↦ none
  | some names ↦ enabled_of c (add_names seen names) ds
]

-- `AllEnabledFeatures`.
unfoldable pub all_enabled_features : Config → Option (List Bytes)
all_enabled_features c = enabled_of c [] c.devices
