-- ===== src/Config/Load/Valid.antt =====
-- What holds of a configuration that `Load` of internal/config/config.go returns.
use mikrotik_exporter.Prelude.{
  true, false, Option, none, some, List, [], ◌∷◌, ◌++◌, ◌≡◌, refl, arith, All, Bytes, equal,
  equal_refl, Dict, lookup, insert, lookup-insert,
}
use mikrotik_exporter.Config.Features.{
  FeatureConf, Features, resource_key, enabled, bool_value_of, fix_conf, fix_entries, fix_features,
  validate_features,
}
use mikrotik_exporter.Config.Features.Laws.{IsFixed, fix_conf-IsFixed, lookup-fix_entries}
use mikrotik_exporter.Config.Device.{
  Device, ConfigError, validate_device, validate_profile, filter_devices,
}
use mikrotik_exporter.Config.Load.{
  Config, Outcome, done, failed, panicked, cons_profile, validate_one, validate_profiles,
  device_errors, check_devices, with_profiles, validate_config, fix_profiles, fix_config, fixed,
  or_empty, load_checked, load,
}

-- The feature is there and enabled.
abbrev pub IsOn : Option FeatureConf → Type 0
IsOn none = ⊥
IsOn (some f) = enabled f ≡ true

-- A map of features that is not nil, in which `resource` is enabled and every configuration says
-- whether it is enabled.
abbrev pub IsServing : Features → Type 0
IsServing none = ⊥
IsServing (some m) = IsOn (lookup resource_key m) × All (λ e. IsFixed e.1) m

pub record IsLoaded (c : Config) : Type 0 where
  pub features_serve : IsServing c.features
  pub profiles_serve : All (λ p. IsServing p.1) c.profiles
  pub devices_valid :
      All (λ d. (d.disabled ≡ false) × (validate_device d c.profiles ≡ [])) c.devices

fix_entries-IsFixed : (m : Dict FeatureConf) → All (λ e. IsFixed e.1) (fix_entries m)
fix_entries-IsFixed [] = tt
fix_entries-IsFixed ((k, v) ∷ m) = (fix_conf-IsFixed v, fix_entries-IsFixed m)

enabled_new : enabled (fix_conf none) ≡ true
unfolding enabled bool_value_of fix_conf lookup equal
enabled_new = refl

-- What `fix` makes of a map into which `resource` was written.
IsServing-fix_features :
    (m : Dict FeatureConf) → IsServing (fix_features (some (insert resource_key none m)))
unfolding fix_features
IsServing-fix_features m = (
  rw (lookup-fix_entries resource_key (insert resource_key none m)) (
      rw (lookup-insert resource_key resource_key none m)
        (rw (equal_refl resource_key) enabled_new)),
  fix_entries-IsFixed (insert resource_key none m),
)

-- The map is one into which `resource` was written.
abbrev IsWritten : Features → Type 0
IsWritten f = (m : Dict FeatureConf) × (f ≡ some (insert resource_key none m))

abbrev AllWritten : Outcome (Dict Features) → Type 0
AllWritten (done ps) = All (λ p. IsWritten p.1) ps
AllWritten (failed es) = Unit
AllWritten panicked = Unit

validate_one_cases :
    (unknown : List Bytes) (f : Features)
    → (f' : Features) → validate_one unknown f ≡ done f'
    → IsWritten f'
validate_one_cases [] none f' h = cc
validate_one_cases [] (some m) f' h = (m, cc)
validate_one_cases (u ∷ us) f f' h = cc

cons_profile-AllWritten :
    (name : Bytes) (r : Outcome Features) (rest : Outcome (Dict Features))
    → ((f : Features) → r ≡ done f → IsWritten f)
    → AllWritten rest
    → AllWritten (cons_profile name r rest)
cons_profile-AllWritten name (done f) (done ps) h k = (h f refl, k)
cons_profile-AllWritten name (done f) (failed es) h k = tt
cons_profile-AllWritten name (done f) panicked h k = tt
cons_profile-AllWritten name (failed es) rest h k = tt
cons_profile-AllWritten name panicked rest h k = tt

validate_profiles-AllWritten :
    (collectors : List Bytes) (ps : Dict Features) → AllWritten (validate_profiles collectors ps)
unfolding validate_profiles
validate_profiles-AllWritten collectors [] = tt
validate_profiles-AllWritten collectors ((name, f) ∷ ps) =
    cons_profile-AllWritten name (validate_one (validate_features collectors f) f)
      (validate_profiles collectors ps) (validate_one_cases (validate_features collectors f) f)
      (validate_profiles-AllWritten collectors ps)

fix_profiles_serve :
    (ps : Dict Features) → All (λ p. IsWritten p.1) ps → All (λ p. IsServing p.1) (fix_profiles ps)
fix_profiles_serve [] h = tt
fix_profiles_serve ((name, f) ∷ ps) h =
    (rw (h.0.1) (IsServing-fix_features h.0.0), fix_profiles_serve ps h.1)

-- A profile is known behind `fix` as it was in front of it.
validate_profile-fix_profiles :
    (d : Device) (ps : Dict Features) → validate_profile d (fix_profiles ps) ≡ validate_profile d ps
unfolding validate_profile lookup
validate_profile-fix_profiles d [] = refl
validate_profile-fix_profiles d ((name, f) ∷ ps) =
    ground (arith, validate_profile-fix_profiles d ps)

filter_devices_enabled : (ds : List Device) → All (λ d. d.disabled ≡ false) (filter_devices ds)
unfolding filter_devices
filter_devices_enabled [] = tt
filter_devices_enabled (d ∷ ds) = ground (arith, filter_devices_enabled ds)

pub append-eq-nil {ℓ} : {A : Type ℓ} (xs ys : List A) → xs ++ ys ≡ [] → (xs ≡ []) × (ys ≡ [])
append-eq-nil [] ys h = (refl, h)
append-eq-nil (x ∷ xs) ys h = cc

device_errors_none :
    (ps : Dict Features) (ds : List Device)
    → All (λ d. d.disabled ≡ false) ds
    → device_errors ps ds ≡ []
    → All (λ d. (d.disabled ≡ false) × (validate_device d (fix_profiles ps) ≡ [])) ds
unfolding device_errors validate_device
device_errors_none ps [] h e = tt
device_errors_none ps (d ∷ ds) h e =
    let (one, rest) = append-eq-nil (validate_device d ps) (device_errors ps ds) e in
    ((h.0, rw (validate_profile-fix_profiles d ps) one), device_errors_none ps ds h.1 rest)

abbrev OutcomeLoaded : Outcome Config → Type 0
OutcomeLoaded (done c) = IsLoaded c
OutcomeLoaded (failed es) = Unit
OutcomeLoaded panicked = Unit

check_devices-Loaded :
    (m : Dict FeatureConf) (ds : List Device) (ps : Dict Features) (es : List ConfigError)
    → device_errors ps ds ≡ es
    → All (λ p. IsWritten p.1) ps
    → All (λ d. d.disabled ≡ false) ds
    → OutcomeLoaded (
        fixed (
          check_devices
            (record { features = some (insert resource_key none m); profiles = ps; devices = ds })
            es))
unfolding fix_config
check_devices-Loaded m ds ps [] e w on = record {
  features_serve = IsServing-fix_features m;
  profiles_serve = fix_profiles_serve ps w;
  devices_valid = device_errors_none ps ds on e;
}
check_devices-Loaded m ds ps (x ∷ es) e w on = tt

with_profiles-Loaded :
    (m : Dict FeatureConf) (ps0 : Dict Features) (ds : List Device) (r : Outcome (Dict Features))
    → AllWritten r
    → All (λ d. d.disabled ≡ false) ds
    → OutcomeLoaded (
        fixed (
          with_profiles
            (record { features = some (insert resource_key none m); profiles = ps0; devices = ds })
            r))
with_profiles-Loaded m ps0 ds (done ps) w on =
    check_devices-Loaded m ds ps (device_errors ps ds) refl w on
with_profiles-Loaded m ps0 ds (failed es) w on = tt
with_profiles-Loaded m ps0 ds panicked w on = tt

load_checked-Loaded :
    (collectors : List Bytes) (c : Config) (unknown : List Bytes)
    → OutcomeLoaded (load_checked collectors c unknown)
unfolding validate_config
load_checked-Loaded collectors c [] =
    with_profiles-Loaded (or_empty c.features) c.profiles (filter_devices c.devices)
      (validate_profiles collectors c.profiles) (validate_profiles-AllWritten collectors c.profiles)
      (filter_devices_enabled c.devices)
load_checked-Loaded collectors c (u ∷ us) = tt

-- A configuration that `Load` returns has no disabled device, each device passes the validation
-- and its profile is known, and in the global features and in each profile the feature `resource`
-- is enabled, whatever the file says of it, and every configuration has an `enabled` entry.
pub load-IsLoaded :
    (collectors : List Bytes) (c : Config) {c' : Config} → load collectors c ≡ done c' → IsLoaded c'
unfolding load
load-IsLoaded collectors c h =
    rw h at (load_checked-Loaded collectors c (validate_features collectors c.features))

-- A profile without a body is a nil map; where such a profile is validated first, and the global
-- features pass, `Load` panics on the write of `resource`.
pub load-panics :
    (collectors : List Bytes) (c : Config) (name : Bytes) (ps : Dict Features)
    → validate_features collectors c.features ≡ []
    → c.profiles ≡ (name, none) ∷ ps
    → load collectors c ≡ panicked
unfolding load validate_config validate_profiles validate_features
load-panics [] c name ps h e = rw e
load-panics (k ∷ collectors) c name ps h e = rw h (rw e)
