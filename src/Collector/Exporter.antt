-- ===== src/Collector/Exporter.antt =====
-- The collectors that a configuration needs and the devices of one scrape: internal/collector/mod.go,
-- internal/collector/mikrotik_collector.go and the registry of internal/collectors/mod.go. What an
-- instance of a collector is is the parameter `Col`; the DNS lookup is the parameter `resolve`.
-- The devices are collected in goroutines that share nothing but the channel; the order of what they
-- send is not modelled.
pub mod Instances
pub mod Targets
use mikrotik_exporter.Prelude.{
  ℕ, Bool, true, false, Option, none, some, List, [], ◌∷◌, ◌++◌, if◌then◌else◌, Bytes, codes, Dict,
  lookup, insert, keys,
}
use mikrotik_exporter.Config.Features.{FeatureConf, Features, feature_names, config_for}
use mikrotik_exporter.Config.Version.{no_version}
use mikrotik_exporter.Config.Device.{Device, SrvRecord}
use mikrotik_exporter.Config.Load.{Config, device_features, all_enabled_features}
use mikrotik_exporter.Convert.Numbers.{Floats}
use mikrotik_exporter.Metrics.Context.{
  Desc, Metric, description, counter_value, gauge_value, label_dev_name, label_dev_address,
}
use mikrotik_exporter.Collector.Device.{with_defaults}

-- `deviceCollectorRC`, in which the collector may be nil.
pub record Selected (Col : Type 0) : Type 0 where
  pub collector : Option Col
  pub name : Bytes
  pub feature_conf : FeatureConf

-- A device with its collectors, as `newDeviceCollector` makes it.
pub record Target (Col : Type 0) : Type 0 where
  pub device : Device
  pub collectors : List (Selected Col)

-- `mikrotikCollector`.
pub record MikrotikCollector (Col : Type 0) : Type 0 where
  pub devices : List (Target Col)
  pub instances : Dict Col

abbrev pub new_target : {Col : Type 0} → Device → List (Selected Col) → Target Col
new_target d cols = record { device = with_defaults d; collectors = cols }

-- The device of one answer of the lookup: it has the user, the password and the record only.
unfoldable pub srv_device : Device → Bytes → Device
srv_device dev target = record {
  srv = dev.srv;
  profile = [];
  user = dev.user;
  password = dev.password;
  port = [];
  name = target;
  address = target;
  timeout = 0;
  collect_timeout = 0;
  ipv6_disabled = false;
  tls = false;
  insecure = false;
  disabled = false;
  firmware_version = no_version;
  timezone = [];
}

module _ {Col : Type 0} where
  -- `registerCollector`.
  unfoldable pub register_collector : Dict Col → Bytes → Col → Dict Col
  register_collector registered name inst = insert name inst registered

  -- `InstanateCollector`; `none` is nil.
  unfoldable pub instantiate_collector : Dict Col → Bytes → Option Col
  instantiate_collector registered name = lookup name registered

  -- `AvailableCollectorsNames`.
  unfoldable pub available_collectors_names : Dict Col → List Bytes
  available_collectors_names registered = keys registered

  -- The loop of `createCollectors`; a name without a collector is logged only.
  unfoldable pub create_onto : Dict Col → Dict Col → List Bytes → Dict Col
  create_onto registered colls [] = colls
  create_onto registered colls (k ∷ names) =
      create_onto registered
        (elim (instantiate_collector registered k) [ none ↦ colls | some col ↦ insert k col colls ])
        names

  -- `createCollectors` for the enabled features.
  unfoldable pub create_collectors : Dict Col → List Bytes → Dict Col
  create_collectors registered names = create_onto registered [] names

  -- `collectorInstances.get`.
  unfoldable pub get : Dict Col → List Bytes → Features → List (Selected Col)
  get ci [] features = []
  get ci (n ∷ names) features =
      record { collector = lookup n ci; name = n; feature_conf = config_for features n }
      ∷ get ci names features

  abbrev pub add_target : Target Col → Option (List (Target Col)) → Option (List (Target Col))
  add_target t none = none
  add_target t (some ts) = some (t ∷ ts)

  -- The loop of `NewCollector`; `none` is the panic of `DeviceFeatures`.
  unfoldable pub new_targets : Config → Dict Col → List Device → Option (List (Target Col))
  new_targets cfg ci [] = some []
  new_targets cfg ci (dev ∷ devs) =
      let rest = new_targets cfg ci devs in
      elim (device_features cfg dev.name) [
        | none ↦ none
        | some feat ↦ add_target (new_target dev (get ci (feature_names feat) feat)) rest
      ]

  abbrev pub with_instances : Dict Col → Option (List (Target Col)) → Option (MikrotikCollector Col)
  with_instances ci none = none
  with_instances ci (some ts) = some (record { devices = ts; instances = ci })

  -- `NewCollector`.
  unfoldable pub new_collector : Dict Col → Config → Option (MikrotikCollector Col)
  new_collector registered cfg = elim (all_enabled_features cfg) [
    | none ↦ none
    | some names ↦
        let ci = create_collectors registered names in
        with_instances ci (new_targets cfg ci cfg.devices)
  ]

  -- `devicesFromSrv` behind its lookup.
  unfoldable pub devices_from_srv : Target Col → List Bytes → List (Target Col)
  devices_from_srv dc [] = []
  devices_from_srv dc (target ∷ targets) =
      new_target (srv_device dc.device target) dc.collectors ∷ devices_from_srv dc targets

  -- The first loop of `Collect`; a record that is not resolved is logged and left out.
  unfoldable pub real_devices :
      (SrvRecord → Option (List Bytes)) → List (Target Col) → List (Target Col)
  real_devices resolve [] = []
  real_devices resolve (dc ∷ dcs) =
      let rest = real_devices resolve dcs in
      elim dc.device.srv [
        | none ↦ dc ∷ rest
        | some srv ↦ elim (resolve srv) [ none ↦ rest | some r ↦ devices_from_srv dc r ++ rest ]
      ]
