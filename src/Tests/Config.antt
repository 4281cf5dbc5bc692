-- ===== src/Tests/Config.antt =====
-- A small configuration and a version.
use mikrotik_exporter.Prelude.{
  true, false, none, some, List, [], ◌∷◌, ◌≡◌, refl, ◌⊎◌, inl, Bytes, codes, pos, negsuc, contains,
  equal, to_lower, lookup, insert,
}
use mikrotik_exporter.Config.Version.{FirmwareVersion, no_version, compare_version}
use mikrotik_exporter.Config.Version.Order.{Older, numbers, compare_version-Older}
use mikrotik_exporter.Config.Features.{
  Features, new_feature_conf, feature_names, enabled, bool_value_of, validate_features,
  fix_features, fix_conf,
}
use mikrotik_exporter.Config.Device.{
  Device, filter_devices, validate_device, validate_conn_conf, validate_profile,
}
use mikrotik_exporter.Config.Load.{
  Config, done, panicked, load, device_features, all_enabled_features, validate_config,
  validate_profiles, device_errors, fix_config,
}
use mikrotik_exporter.Config.Load.Valid.{IsLoaded, load-IsLoaded, load-panics}
use mikrotik_exporter.Config.Load.Lookup.{
  FoundServing, device_features-IsServing, device_features-first,
}
use mikrotik_exporter.Config.Load.Enabled.{IsListed, all_enabled_features-IsListed}

abbrev version_7_12 : FirmwareVersion
version_7_12 = record no_version { major = pos 7; minor = pos 12 }

compare_version-Older_example :
    ((compare_version version_7_12 (pos 7) (pos 13) (pos 0) ≡ negsuc 0)
      × Older (numbers version_7_12) (pos 7, pos 13, pos 0))
    ⊎ ((compare_version version_7_12 (pos 7) (pos 13) (pos 0) ≡ pos 0)
        × (numbers version_7_12 ≡ (pos 7, pos 13, pos 0)))
    ⊎ ((compare_version version_7_12 (pos 7) (pos 13) (pos 0) ≡ pos 1)
        × Older (pos 7, pos 13, pos 0) (numbers version_7_12))
compare_version-Older_example = compare_version-Older version_7_12 (pos 7) (pos 13) (pos 0)

abbrev pub router : Device
router = record {
  srv = none;
  profile = codes "basic";
  user = codes "u";
  password = codes "p";
  port = [];
  name = codes "r1";
  address = codes "10.0.0.1";
  timeout = 0;
  collect_timeout = 0;
  ipv6_disabled = false;
  tls = false;
  insecure = false;
  disabled = false;
  firmware_version = no_version;
  timezone = [];
}

abbrev pub plain_router : Device
plain_router = record router { profile = [] }

abbrev known : List Bytes
known = codes "health" ∷ codes "resource" ∷ []

abbrev pub health : Features
health = some ((codes "health", none) ∷ [])

abbrev file : Config
file = record {
  features = health;
  profiles = (codes "basic", health) ∷ [];
  devices = router ∷ plain_router ∷ record router { disabled = true } ∷ [];
}

abbrev pub served : Features
served = some ((codes "health", new_feature_conf) ∷ (codes "resource", new_feature_conf) ∷ [])

abbrev pub loaded : Config
loaded = record {
  features = served;
  profiles = (codes "basic", served) ∷ [];
  devices = router ∷ plain_router ∷ [];
}

load-loaded : load known file ≡ done loaded
unfolding load validate_features contains equal to_lower validate_config validate_profiles
    device_errors filter_devices validate_device validate_conn_conf validate_profile lookup
    fix_config fix_features insert fix_conf
load-loaded = refl

load-IsLoaded_example : IsLoaded loaded
load-IsLoaded_example = load-IsLoaded known file load-loaded

abbrev bare : Config
bare = record { features = none; profiles = (codes "basic", none) ∷ []; devices = [] }

load-panics_example : load known bare ≡ panicked
unfolding validate_features
load-panics_example = load-panics known bare (codes "basic") [] refl refl

pub loaded-IsLoaded : IsLoaded loaded
loaded-IsLoaded = load-IsLoaded known file load-loaded

device_features-IsServing_example : FoundServing (device_features loaded (codes "r1"))
device_features-IsServing_example =
    device_features-IsServing loaded router loaded-IsLoaded (inl refl)

-- The second of two devices with one name has a profile of its own, which is not looked at.
abbrev twins : Config
twins = record {
  features = served;
  profiles = (codes "basic", health) ∷ [];
  devices =
      record router { name = codes "other" } ∷ plain_router ∷ record router { address = [] } ∷ [];
}

device_features-first_example : device_features twins (codes "r1") ≡ some served
unfolding equal
device_features-first_example =
    device_features-first twins (record router { name = codes "other" } ∷ []) plain_router
      (record router { address = [] } ∷ []) (codes "r1") refl (refl, tt) refl

all_enabled_features-IsListed_example :
    IsListed loaded (codes "health") (all_enabled_features loaded)
unfolding device_features lookup equal feature_names enabled bool_value_of contains
all_enabled_features-IsListed_example =
    all_enabled_features-IsListed loaded router served (codes "health") loaded-IsLoaded refl refl
