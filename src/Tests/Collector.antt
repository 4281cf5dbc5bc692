-- ===== src/Tests/Collector.antt =====
-- A device with collectors of which five fail, and a version text.
use mikrotik_exporter.Prelude.{
  Dict, contains, All, ℕ, suc, Bool, true, false, none, some, List, [], ◌∷◌, ◌≡◌, refl, arith, inl,
  Bytes, codes, value_of, equal, lookup, pos, ltb, if◌then◌else◌, ◌⊎◌, add64, length,
}
use mikrotik_exporter.Collector.Exporter.{create_collectors, new_collector}
use mikrotik_exporter.Collector.Exporter.Instances.{lookup-create_collectors}
use mikrotik_exporter.Collector.Exporter.Targets.{HasTargets, new_collector-HasTargets}
use mikrotik_exporter.Tests.Config.{loaded, loaded-IsLoaded}
use mikrotik_exporter.Proto.Sentence.{Sentence}
use mikrotik_exporter.Config.Features.{new_feature_conf}
use mikrotik_exporter.Config.Version.{no_version}
use mikrotik_exporter.Config.Device.{Device}
use mikrotik_exporter.Collector.Version.{
  version_is, parse_firmware_version, IsNumber, parse_firmware_version-numbers,
}
use mikrotik_exporter.Collector.Gather.{DeviceCollectorRc, gather_metrics}
use mikrotik_exporter.Collector.Gather.Counts.{
  walk, gave_up, has_five_failed, begins_failed, failures, walk_step,
}
use mikrotik_exporter.Collector.Gather.Limit.{gather_metrics-gives_up, gather_metrics-Complete}
use mikrotik_exporter.Collector.Device.{Scrape, DeviceCollector}
use mikrotik_exporter.Client.Session.{new_client}
use mikrotik_exporter.Collector.Connect.{connect}
use mikrotik_exporter.Collector.Connect.Laws.{IsClosed, connect-IsClosed}
use mikrotik_exporter.Collector.Collect.{collect}
use mikrotik_exporter.Collector.Collect.Laws.{collect-keeps_none}
use mikrotik_exporter.Tests.Samples.{kept_bytes, plain}

abbrev resource : Sentence
resource = record {
  map = (codes "version", codes "7.12.1 (stable)") ∷ (codes "architecture-name", codes "arm") ∷ [];
  word = codes "!re";
  tag = [];
}

IsNumber-7 : IsNumber (codes "7")
IsNumber-7 = ground arith

IsNumber-12 : IsNumber (codes "12")
IsNumber-12 = ground arith

IsNumber-1 : IsNumber (codes "1")
IsNumber-1 = ground arith

parse_firmware_version-numbers_example :
    parse_firmware_version resource
    ≡ version_is
        (record { major = pos 7; minor = pos 12; patch = pos 1; architecture = codes "arm" })
unfolding value_of lookup equal
parse_firmware_version-numbers_example =
    parse_firmware_version-numbers resource (codes "7") (codes "12") (codes "1") (codes "(stable)")
      IsNumber-7 IsNumber-12 IsNumber-1 refl

-- A collector that fails from the state 3 on; each counts the state up.
abbrev counting : DeviceCollectorRc ℕ ℕ
counting = record {
  name = codes "counting";
  feature_conf = new_feature_conf;
  collect = λ conf n. (suc n, if ltb n 3 then none else some n);
}

abbrev never : ℕ → Bool
never n = false

abbrev ten : List (DeviceCollectorRc ℕ ℕ)
ten =
    counting ∷ counting ∷ counting ∷ counting ∷ counting ∷ counting ∷ counting ∷ counting ∷ counting
    ∷ counting ∷ []

gather_metrics-gives_up_example :
    gave_up (gather_metrics never ten 0 0).result ≡ has_five_failed (walk never ten 0).0
gather_metrics-gives_up_example = gather_metrics-gives_up never ten 0 0

abbrev four : List (DeviceCollectorRc ℕ ℕ)
four = counting ∷ counting ∷ counting ∷ counting ∷ []

gather_metrics-Complete_example : gather_metrics never four 0 8 ≡ record {
  state = (walk never four 0).1;
  errors = add64 8 (length (failures (walk never four 0).0));
  result = failures (walk never four 0).0;
}
unfolding walk walk_step has_five_failed begins_failed
gather_metrics-Complete_example = gather_metrics-Complete never four 0 8 (omega arith) refl

abbrev found_device : Device
found_device = record {
  srv = some (record { dns = none; record_name = codes "_api" });
  profile = [];
  user = codes "u";
  password = codes "p";
  port = codes "8728";
  name = codes "r1";
  address = codes "10.0.0.1";
  timeout = 5;
  collect_timeout = 50;
  ipv6_disabled = false;
  tls = false;
  insecure = false;
  disabled = false;
  firmware_version = no_version;
  timezone = [];
}

abbrev found : DeviceCollector Bytes ℕ ℕ ℕ
found = record { cl = none; device = found_device; collectors = []; is_srv = true; errors = 0 }

abbrev silent : Bytes → Bytes × Bytes
silent s = (s, [])

abbrev same : Bytes → Bytes
same s = s

abbrev dials : Device → Bytes ⊎ ℕ
dials d = inl []

abbrev not_done : Scrape Bytes ℕ ℕ → Bool
not_done s = false

collect-keeps_none_example :
    (collect kept_bytes silent plain same dials not_done found []).0.0.cl ≡ none
collect-keeps_none_example =
    collect-keeps_none kept_bytes silent plain same dials not_done found [] refl

abbrev registered : Dict ℕ
registered = (codes "health", 1) ∷ (codes "dns", 2) ∷ (codes "resource", 3) ∷ []

abbrev enabled_features : List Bytes
enabled_features = codes "resource" ∷ codes "health" ∷ []

new_collector-HasTargets_example : HasTargets registered loaded (new_collector registered loaded)
new_collector-HasTargets_example = new_collector-HasTargets registered loaded loaded-IsLoaded

lookup-create_collectors_example :
    lookup (codes "dns") (create_collectors registered enabled_features)
    ≡ (if contains enabled_features (codes "dns") then lookup (codes "dns") registered else none)
lookup-create_collectors_example =
    lookup-create_collectors registered enabled_features (codes "dns")

-- A device with an address, and a client of an earlier collection that does not answer.
abbrev held : DeviceCollector Bytes ℕ ℕ ℕ
held = record found {
  cl = some (new_client []);
  device = record found_device { srv = none };
  is_srv = false;
}

connect-IsClosed_example : All IsClosed (connect kept_bytes silent plain same dials held).2
connect-IsClosed_example = connect-IsClosed kept_bytes silent plain same dials held refl
