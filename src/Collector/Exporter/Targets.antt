-- ===== src/Collector/Exporter/Targets.antt =====
-- What NewCollector (internal/collector/mikrotik_collector.go) makes of a loaded configuration: the
-- collectors of its devices are those of `createCollectors`, which knows all their features.
use mikrotik_exporter.Prelude.{
  true, Option, none, some, List, [], ◌∷◌, ◌≡◌, refl, ap, arith, All, Bytes, Dict, lookup,
  equal_refl, contains,
}
use mikrotik_exporter.Config.Features.{Features, feature_names, config_for}
use mikrotik_exporter.Config.Device.{Device}
use mikrotik_exporter.Config.Load.{Config, device_features, all_enabled_features}
use mikrotik_exporter.Config.Load.Valid.{IsLoaded}
use mikrotik_exporter.Config.Load.Lookup.{All-Member, FoundServing, device_features-IsServing}
use mikrotik_exporter.Config.Load.Enabled.{HoldsAll, all_enabled_features-HoldsAll}
use mikrotik_exporter.Collector.Exporter.{
  Selected, Target, new_target, create_collectors, get, add_target, new_targets, MikrotikCollector,
  with_instances, new_collector,
}
use mikrotik_exporter.Collector.Exporter.Instances.{lookup-create_collectors}

module _ {Col : Type 0} (registered : Dict Col) where
  -- Each feature with the collector that is registered for it and the configuration that the
  -- features have for it.
  abbrev pub own_collectors : Features → List Bytes → List (Selected Col)
  own_collectors f [] = []
  own_collectors f (n ∷ ns) =
      record { collector = lookup n registered; name = n; feature_conf = config_for f n }
      ∷ own_collectors f ns

  -- The target of a device with its own features, all of which have their collectors.
  abbrev pub IsTarget : Config → Device → Target Col → Type 0
  IsTarget c d t =
      (f : Features) × (device_features c d.name ≡ some f)
      × (t ≡ new_target d (own_collectors f (feature_names f)))

  abbrev pub AreTargets : Config → List Device → List (Target Col) → Type 0
  AreTargets c [] [] = Unit
  AreTargets c [] (t ∷ ts) = ⊥
  AreTargets c (d ∷ ds) [] = ⊥
  AreTargets c (d ∷ ds) (t ∷ ts) = IsTarget c d t × AreTargets c ds ts

  abbrev pub HasTargets : Config → Option (MikrotikCollector Col) → Type 0
  HasTargets c none = ⊥
  HasTargets c (some mc) = AreTargets c c.devices mc.devices

  get-own_collectors :
      (names : List Bytes) (f : Features) (ns : List Bytes)
      → ((n : Bytes) → contains ns n ≡ true → contains names n ≡ true)
      → get (create_collectors registered names) ns f ≡ own_collectors f ns
  unfolding get contains
  get-own_collectors names f [] h = refl
  get-own_collectors names f (n ∷ ns) h =
      let there : contains names n ≡ true = h n (rw (equal_refl n) refl) in
      rw (lookup-create_collectors registered names n)
        (rw there (rw (get-own_collectors names f ns (λ k e. h k (ground (arith, e)))) refl))

  abbrev FoundTargets : Config → List Device → Option (List (Target Col)) → Type 0
  FoundTargets c ds none = ⊥
  FoundTargets c ds (some ts) = AreTargets c ds ts

  new_targets-FoundTargets :
      (c : Config) (names : List Bytes) (ds : List Device)
      → HoldsAll c (some names)
      → All (λ d. FoundServing (device_features c d.name)) ds
      → FoundTargets c ds (new_targets c (create_collectors registered names) ds)
  unfolding new_targets
  new_targets-FoundTargets c names [] h g = tt
  new_targets-FoundTargets c names (d ∷ ds) h g =
      go (device_features c d.name) _ refl g.0 (new_targets-FoundTargets c names ds h g.1)
    where
      go :
          (x : Option Features) (rest : Option (List (Target Col)))
          → device_features c d.name ≡ x
          → FoundServing x
          → FoundTargets c ds rest
          → FoundTargets c (d ∷ ds) (elim x [
            | none ↦ none
            | some f ↦
                add_target
                  (new_target d (get (create_collectors registered names) (feature_names f) f))
                  rest
          ])
      go none rest e k r = absurd k
      go (some f) none e k r = absurd r
      go (some f) (some ts) e k r = (
        (
          f,
          e,
          ap (λ cs. new_target d cs)
              (get-own_collectors names f (feature_names f) (λ n m. h d f n e m)),
        ),
        r,
      )

  instances_with :
      (c : Config) (ci : Dict Col) (x : Option (List (Target Col)))
      → FoundTargets c c.devices x
      → HasTargets c (with_instances ci x)
  instances_with c ci none h = h
  instances_with c ci (some ts) h = h

  -- For a loaded configuration `NewCollector` makes a target for each device, in order. It has the
  -- features that `DeviceFeatures` gives the device and, for each of those that are enabled, the
  -- collector that is registered for that feature and the configuration that the features have for
  -- it: a collector is nil only where none is registered, never for a feature that
  -- `AllEnabledFeatures` left out.
  pub new_collector-HasTargets :
      (c : Config) → IsLoaded c → HasTargets c (new_collector registered c)
  unfolding new_collector
  new_collector-HasTargets c l = go (all_enabled_features c) (all_enabled_features-HoldsAll c l)
    where
      go :
          (x : Option (List Bytes))
          → HoldsAll c x
          → HasTargets c (elim x [
            | none ↦ none
            | some names ↦
                let ci = create_collectors registered names in
                with_instances ci (new_targets c ci c.devices)
          ])
      go none h = h
      go (some names) h =
          instances_with c (create_collectors registered names)
            (new_targets c (create_collectors registered names) c.devices)
            (new_targets-FoundTargets c names c.devices h (
              All-Member (λ d. FoundServing (device_features c d.name)) c.devices
                (λ d m. device_features-IsServing c d l m)))
