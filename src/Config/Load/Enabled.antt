-- ===== src/Config/Load/Enabled.antt =====
-- `AllEnabledFeatures` of internal/config/config.go, which createCollectors takes its names from,
-- against `DeviceFeatures`, by which NewCollector gives a device its features.
use mikrotik_exporter.Prelude.{
  true, false, ◌||◌, Option, none, some, List, [], ◌∷◌, ◌++◌, ◌≡◌, ◌≢◌, refl, ap, sym, ◌∙◌, inl,
  inr, All, if◌then◌else◌, Bytes, equal, equal_refl, equal_iff, is_empty, contains, Bool-cases,
  arith,
}
use mikrotik_exporter.Config.Features.{Features, feature_names}
use mikrotik_exporter.Config.Device.{Device}
use mikrotik_exporter.Config.Load.{
  Config, features_of, find_named, device_features, add_names, device_names, enabled_of,
  all_enabled_features,
}
use mikrotik_exporter.Config.Load.Valid.{IsLoaded}
use mikrotik_exporter.Config.Load.Lookup.{
  Member, All-Member, FoundServing, device_features-IsServing,
}

contains-append :
    (xs ys : List Bytes) (n : Bytes) → contains (xs ++ ys) n ≡ (contains xs n || contains ys n)
unfolding contains
contains-append [] ys n = refl
contains-append (x ∷ xs) ys n = ground (arith, contains-append xs ys n)

-- A name that is put in.
abbrev with_name : List Bytes → Bytes → List Bytes
with_name seen name = if contains seen name then seen else seen ++ name ∷ []

contains-with_name_old :
    (seen : List Bytes) (name n : Bytes)
    → contains seen n ≡ true
    → contains (with_name seen name) n ≡ true
contains-with_name_old seen name n h = elim (Bool-cases (contains seen name)) [
  | inl e ↦ rw e h
  | inr e ↦ rw e (contains-append seen (name ∷ []) n ∙ rw h refl)
]

contains-with_name_new :
    (seen : List Bytes) (name : Bytes) → contains (with_name seen name) name ≡ true
contains-with_name_new seen name = elim (Bool-cases (contains seen name)) [
  | inl e ↦ rw e e
  | inr e ↦
      rw e (
        contains-append seen (name ∷ []) name ∙ rw e (unfold contains in rw (equal_refl name) refl))
]

contains-add_names_old :
    (names seen : List Bytes) (n : Bytes)
    → contains seen n ≡ true
    → contains (add_names seen names) n ≡ true
unfolding add_names
contains-add_names_old [] seen n h = h
contains-add_names_old (k ∷ names) seen n h =
    contains-add_names_old names (with_name seen k) n (contains-with_name_old seen k n h)

contains-add_names_new :
    (names seen : List Bytes) (n : Bytes)
    → contains names n ≡ true
    → contains (add_names seen names) n ≡ true
unfolding add_names contains
contains-add_names_new [] seen n h = cc
contains-add_names_new (k ∷ names) seen n h = elim (Bool-cases (equal k n)) [
  | inl e ↦ contains-add_names_old names (with_name seen k) n (
      ap (λ x. contains (with_name seen k) x) (sym ((equal_iff k n).0 e))
      ∙ contains-with_name_new seen k)
  | inr e ↦ contains-add_names_new names (with_name seen k) n (rw e at h)
]

module _ (c : Config) where
  -- The names that the loop adds for the device are among those.
  abbrev Covers : List Bytes → Device → Type 0
  Covers out d =
      (names : List Bytes) (n : Bytes)
      → device_names c d ≡ some names
      → contains names n ≡ true
      → contains out n ≡ true

  abbrev Enough : List Bytes → List Device → Option (List Bytes) → Type 0
  Enough seen ds none = ⊥
  Enough seen ds (some out) =
      ((n : Bytes) → contains seen n ≡ true → contains out n ≡ true) × All (Covers out) ds

  enabled_of-Enough :
      (seen : List Bytes) (ds : List Device)
      → All (λ d. device_names c d ≢ none) ds
      → Enough seen ds (enabled_of c seen ds)
  unfolding enabled_of
  enabled_of-Enough seen [] h = (λ n e. e, tt)
  enabled_of-Enough seen (d ∷ ds) h =
      go (device_names c d) refl (λ names. enabled_of-Enough (add_names seen names) ds h.1)
    where
      covered :
          (names : List Bytes) (rest : Option (List Bytes))
          → device_names c d ≡ some names
          → Enough (add_names seen names) ds rest
          → Enough seen (d ∷ ds) rest
      covered names none e k = k
      covered names (some out) e k = (
        λ n m. k.0 n (contains-add_names_old names seen n m),
        (
          λ names' n e' m. k.0 n (
              contains-add_names_new names seen n
                (ap (λ x. elim x [ none ↦ false | some xs ↦ contains xs n ]) (sym e ∙ e') ∙ m)),
          k.1,
        ),
      )

      go :
          (x : Option (List Bytes))
          → device_names c d ≡ x
          → ((names : List Bytes)
              → Enough (add_names seen names) ds (enabled_of c (add_names seen names) ds))
          → Enough seen
              (d ∷ ds)
              (elim x [ none ↦ none | some names ↦ enabled_of c (add_names seen names) ds ])
      go none e ih = absurd (h.0 e)
      go (some names) e ih = covered names _ e (ih names)

  named_first :
      (ds : List Device) (k : Bytes) (x : Device)
      → find_named ds k ≡ some x
      → Member x ds × (x.name ≡ k)
  named_first [] k x h = absurd cc
  named_first (d ∷ ds) k x h = elim (Bool-cases (equal d.name k)) [
    | inl e ↦
        let same : d ≡ x = cc (rw e at h) in
        (inl same, ap (λ y. y.name) (sym same) ∙ (equal_iff d.name k).0 e)
    | inr e ↦ let (m, n) = named_first ds k x (rw e at h) in (inr m, n)
  ]

  device_names_own :
      (x : Device) (f : Features)
      → features_of c x ≡ some f
      → device_features c x.name ≡ some f
      → device_names c x ≡ some (feature_names f)
  device_names_own x f h k = elim (Bool-cases (is_empty x.profile)) [
    | inl e ↦ rw e (ap (λ y. elim y [ none ↦ none | some g ↦ some (feature_names g) ]) (rw e at h))
    | inr e ↦ rw e (rw k refl)
  ]

  device_names_there : (d : Device) → IsLoaded c → Member d c.devices → device_names c d ≢ none
  device_names_there d l m = elim (Bool-cases (is_empty d.profile)) [
    | inl e ↦ rw e cc
    | inr e ↦ rw e (go (device_features c d.name) (device_features-IsServing c d l m))
  ]
    where
      go :
          (x : Option Features)
          → FoundServing x
          → let out : Option (List Bytes) = elim x [
            | none ↦ none
            | some f ↦ some (feature_names f)
          ] in
            out ≢ none
      go none h = absurd h
      go (some f) h = cc

  Member-All : (P : Device → Type 0) (d : Device) (ds : List Device) → Member d ds → All P ds → P d
  Member-All P d [] m h = absurd m
  Member-All P d (x ∷ ds) (inl e) h = rw e at h.0
  Member-All P d (x ∷ ds) (inr m) h = Member-All P d ds m h.1

  -- Names with each enabled feature that a name in the list of devices gets.
  abbrev pub HoldsAll : Option (List Bytes) → Type 0
  HoldsAll none = ⊥
  HoldsAll (some out) =
      (d : Device) (f : Features) (n : Bytes)
      → device_features c d.name ≡ some f
      → contains (feature_names f) n ≡ true
      → contains out n ≡ true

  covered_by_name :
      (out : List Bytes) (k : Bytes) (x : Option Device) (f : Features) (n : Bytes)
      → All (Covers out) c.devices
      → find_named c.devices k ≡ x
      → elim x [ none ↦ none | some y ↦ features_of c y ] ≡ some f
      → contains (feature_names f) n ≡ true
      → contains out n ≡ true
  covered_by_name out k none f n h e g m = absurd cc
  covered_by_name out k (some y) f n h e g m =
      let (member, same) = named_first c.devices k y e in
      let found : device_features c y.name ≡ some f =
        unfold device_features in
        ap {B = Option Features}
          (λ j. elim (find_named c.devices j) [ none ↦ none | some z ↦ features_of c z ]) same
        ∙ ap {B = Option Features} (λ z. elim z [ none ↦ none | some w ↦ features_of c w ]) e
        ∙ g in
      Member-All (Covers out) y c.devices member h (feature_names f) n
        (device_names_own y f g found) m

  pub all_enabled_features-HoldsAll : IsLoaded c → HoldsAll (all_enabled_features c)
  unfolding all_enabled_features device_features
  all_enabled_features-HoldsAll l =
      go (enabled_of c [] c.devices)
        (enabled_of-Enough [] c.devices (All-Member _ c.devices (λ d m. device_names_there d l m)))
    where
      go : (x : Option (List Bytes)) → Enough [] c.devices x → HoldsAll x
      go none h = h
      go (some out) h = λ (d : Device) f n e m.
          covered_by_name out d.name (find_named c.devices d.name) f n h.1 refl e m

  -- The names are there, with this one.
  abbrev pub IsListed : Bytes → Option (List Bytes) → Type 0
  IsListed n none = ⊥
  IsListed n (some names) = contains names n ≡ true

  -- In a loaded configuration `AllEnabledFeatures` does not panic, and it has each enabled feature
  -- that `DeviceFeatures` gives a device, also where several devices have one name and differ in
  -- their profiles.
  pub all_enabled_features-IsListed :
      (d : Device) (f : Features) (n : Bytes)
      → IsLoaded c
      → device_features c d.name ≡ some f
      → contains (feature_names f) n ≡ true
      → IsListed n (all_enabled_features c)
  all_enabled_features-IsListed d f n l e m =
      go (all_enabled_features c) (all_enabled_features-HoldsAll l)
    where
      go : (x : Option (List Bytes)) → HoldsAll x → IsListed n x
      go none h = h
      go (some names) h = h d f n e m
