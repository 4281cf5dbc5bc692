-- ===== src/Config/Load/Lookup.antt =====
-- The features that a device gets in a loaded configuration, and the names that are collected.
use mikrotik_exporter.Prelude.{
  Bool, true, false, Option, none, some, List, [], ◌∷◌, ◌++◌, ◌≡◌, ◌≢◌, refl, ap, ◌∙◌, ◌⊎◌, inl,
  inr, All, if◌then◌else◌, Bytes, equal, equal_refl, is_empty, Dict, lookup, Bool-cases,
}
use mikrotik_exporter.Config.Features.{Features}
use mikrotik_exporter.Config.Device.{Device, validate_device, validate_profile, validate_conn_conf}
use mikrotik_exporter.Config.Load.{Config, features_of, find_named, device_features}
use mikrotik_exporter.Config.Load.Valid.{IsServing, IsLoaded, append-eq-nil}

-- The device is one of the list.
abbrev pub Member : Device → List Device → Type 0
Member d [] = ⊥
Member d (x ∷ xs) = (x ≡ d) ⊎ Member d xs

pub All-Member :
    (P : Device → Type 0) (ds : List Device) → ((d : Device) → Member d ds → P d) → All P ds
All-Member P [] h = tt
All-Member P (d ∷ ds) h = (h d (inl refl), All-Member P ds (λ x m. h x (inr m)))

abbrev pub FoundServing : Option Features → Type 0
FoundServing none = ⊥
FoundServing (some f) = IsServing f

lookup-FoundServing :
    (k : Bytes) (ps : Dict Features)
    → All (λ p. IsServing p.1) ps
    → lookup k ps ≢ none
    → FoundServing (lookup k ps)
unfolding lookup
lookup-FoundServing k [] h n = absurd (n refl)
lookup-FoundServing k ((j, f) ∷ ps) h n = go (equal j k) (λ q. lookup-FoundServing k ps h.1 q) n
  where
    go :
        (b : Bool)
        → (lookup k ps ≢ none → FoundServing (lookup k ps))
        → (if b then some f else lookup k ps) ≢ none
        → FoundServing (if b then some f else lookup k ps)
    go true ih n = h.0
    go false ih n = ih n

validate_profile-known :
    (d : Device) (ps : Dict Features)
    → validate_profile d ps ≡ []
    → is_empty d.profile ≡ false
    → lookup d.profile ps ≢ none
unfolding validate_profile
validate_profile-known d ps h e n = cc (rw (e, n, validate_profile) at h)

features_of-FoundServing :
    (c : Config) (d : Device)
    → IsServing c.features
    → All (λ p. IsServing p.1) c.profiles
    → validate_device d c.profiles ≡ []
    → FoundServing (features_of c d)
unfolding validate_device
features_of-FoundServing c d g ps v = elim (Bool-cases (is_empty d.profile)) [
  | inl e ↦ rw e g
  | inr e ↦ rw e (
      lookup-FoundServing d.profile c.profiles ps
        (validate_profile-known d c.profiles (append-eq-nil (validate_conn_conf d) _ v).1 e))
]

find_named-FoundServing :
    (c : Config) (d : Device) (ds : List Device)
    → IsServing c.features
    → All (λ p. IsServing p.1) c.profiles
    → All (λ x. (x.disabled ≡ false) × (validate_device x c.profiles ≡ [])) ds
    → Member d ds
    → FoundServing (elim (find_named ds d.name) [ none ↦ none | some x ↦ features_of c x ])
find_named-FoundServing c d [] g ps v m = absurd m
find_named-FoundServing c d (x ∷ ds) g ps v (inl e) =
    let same : equal x.name d.name ≡ true = rw e (equal_refl d.name) in
    rw same (features_of-FoundServing c x g ps v.0.1)
find_named-FoundServing c d (x ∷ ds) g ps v (inr m) = elim (Bool-cases (equal x.name d.name)) [
  | inl e ↦ rw e (features_of-FoundServing c x g ps v.0.1)
  | inr e ↦ rw e (find_named-FoundServing c d ds g ps v.1 m)
]

-- In a loaded configuration no device makes `DeviceFeatures` panic: it gets features that are not
-- nil, with `resource` enabled.
pub device_features-IsServing :
    (c : Config) (d : Device)
    → IsLoaded c
    → Member d c.devices
    → FoundServing (device_features c d.name)
unfolding device_features
device_features-IsServing c d l m =
    find_named-FoundServing c d c.devices l.features_serve l.profiles_serve l.devices_valid m

find_named-append :
    (before : List Device) (first : Device) (after : List Device) (k : Bytes)
    → All (λ x. equal x.name k ≡ false) before
    → first.name ≡ k
    → find_named (before ++ first ∷ after) k ≡ some first
find_named-append [] first after k h e =
    let same : equal first.name k ≡ true = rw e (equal_refl k) in rw same refl
find_named-append (x ∷ before) first after k h e =
    rw (h.0) (find_named-append before first after k h.1 e)

-- `DeviceFeatures` of a name that several devices have, at whatever places in the list, is that of
-- the first of them: the features of its profile, or those of the configuration if it has none. The
-- profiles of the other devices of that name are not looked at.
pub device_features-first :
    (c : Config) (before : List Device) (first : Device) (after : List Device) (name : Bytes)
    → c.devices ≡ before ++ first ∷ after
    → All (λ x. equal x.name name ≡ false) before
    → first.name ≡ name
    → device_features c name
      ≡ (if is_empty first.profile then some c.features else lookup first.profile c.profiles)
unfolding device_features
device_features-first c before first after name e others same =
    ap {B = Option Features}
      (λ ds. elim (find_named ds name) [ none ↦ none | some x ↦ features_of c x ]) e
    ∙ ap {B = Option Features} (λ r. elim r [ none ↦ none | some x ↦ features_of c x ])
        (find_named-append before first after name others same)
