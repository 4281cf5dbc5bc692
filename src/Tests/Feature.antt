-- ===== src/Tests/Feature.antt =====
-- Collectors of features on small devices.
use mikrotik_exporter.Prelude.{
  ℕ, suc, Bool, true, false, Option, none, some, List, [], ◌∷◌, ◌++◌, ◌≡◌, ◌≢◌, refl, All,
  if◌then◌else◌, Bytes, codes, contains, Dict, lookup, insert, equal,
}
use mikrotik_exporter.Proto.Sentence.{Sentence}
use mikrotik_exporter.Proto.Writer.Laws.{frame}
use mikrotik_exporter.Client.Reply.{Reply}
use mikrotik_exporter.Client.Session.{Client, ClientError, new_client}
use mikrotik_exporter.Convert.Values.{metric_from_string}
use mikrotik_exporter.Config.Features.{list_value}
use mikrotik_exporter.Config.Device.{Device}
use mikrotik_exporter.Config.Version.{no_version}
use mikrotik_exporter.Metrics.Context.{Metric, Desc, description, gauge_value}
use mikrotik_exporter.Metrics.Property.{PropertyMetric, simple, describe, describe_list}
use mikrotik_exporter.Metrics.Property.Labels.{Listed}
use mikrotik_exporter.Collector.Exporter.{register_collector, instantiate_collector}
use mikrotik_exporter.Feature.Base.{answered, External, Scope, RouterOsCollector}
use mikrotik_exporter.Feature.Base.Laws.{Returns, fits}
use mikrotik_exporter.Feature.Common.{labelled, collect_rows}
use mikrotik_exporter.Feature.Common.Rows.{rows_sent, rows_errors, collect_rows-rows}
use mikrotik_exporter.Feature.Undescribed.{may_panic, undescribed}
use mikrotik_exporter.Feature.Tools.{collect_scripts, new_script_collector}
use mikrotik_exporter.Feature.Ethernet.{collect_poe}
use mikrotik_exporter.Feature.Ethernet.Proplist.{
  requested, IsRestricted, HonoursProplist, collect_poe_silent,
}
use mikrotik_exporter.Feature.Remote.{Library, client_external}
use mikrotik_exporter.Feature.Registry.{
  inits, register_all, registered_collectors, instanate_collector,
}
use mikrotik_exporter.Feature.Registry.Total.{instanate_collector_total, collect_total}
use mikrotik_exporter.Tests.Samples.{kept_bytes, plain, whole}

abbrev same : Bytes → Bytes
same b = b

abbrev lib : Library ℕ
lib = record {
  floats = whole;
  time_parse = λ layout value. none;
  ago = λ n. n;
  thousandth = λ n. n;
  quote = same;
}

-- A device whose script returns 21.
abbrev answer_21 : Bytes → Bytes × Bytes
answer_21 s = ([], frame (codes "!done" ∷ codes "=ret=21" ∷ []))

abbrev remote : External (Client Bytes ℕ) (ClientError ℕ) ℕ
remote = client_external kept_bytes answer_21 plain same lib

abbrev script_desc : Desc
script_desc = labelled [] (codes "script") (codes "metrics from scripts") (codes "script")

abbrev scripts : RouterOsCollector (Client Bytes ℕ) (ClientError ℕ) ℕ
scripts = record { describe = script_desc ∷ []; collect = collect_scripts remote script_desc }

abbrev router : Device
router = record {
  srv = none;
  profile = [];
  user = codes "admin";
  password = codes "secret";
  port = codes "8728";
  name = codes "router";
  address = codes "192.0.2.1";
  timeout = 5;
  collect_timeout = 50;
  ipv6_disabled = false;
  tls = false;
  insecure = false;
  disabled = false;
  firmware_version = no_version;
  timezone = [];
}

abbrev scope : Scope
scope = record {
  device = router;
  feature_cfg = some ((codes "scripts", list_value (some (codes " temp") ∷ [])) ∷ []);
}

scripts-instanate_collector : instanate_collector remote (codes "scripts") ≡ some (some scripts)
unfolding instanate_collector instantiate_collector registered_collectors register_all inits
    register_collector insert lookup equal new_script_collector
scripts-instanate_collector = refl

collect_total_example :
    Returns (may_panic (codes "scripts")) (scripts.collect scope (new_client [])).0
    × All
        (λ (x : Metric ℕ). Listed x.desc (undescribed (codes "scripts") ++ scripts.describe))
        (scripts.collect scope (new_client [])).2
collect_total_example =
    collect_total kept_bytes answer_21 plain same lib (codes "scripts") scripts scope
      (new_client []) scripts-instanate_collector

instanate_collector_total_example : some scripts ≢ none
instanate_collector_total_example =
    instanate_collector_total kept_bytes answer_21 plain same lib (codes "scripts") (some scripts)
      scripts-instanate_collector

abbrev sentence : Dict Bytes → Sentence
sentence m = record { word = codes "!re"; tag = []; map = m }

-- Two interfaces, the first one without a number.
abbrev two_rows : Reply
two_rows = record {
  done = none;
  re =
      sentence ((codes "name", codes "a") ∷ (codes "rx", codes "x") ∷ [])
      ∷ sentence ((codes "name", codes "b") ∷ (codes "rx", codes "7") ∷ [])
      ∷ [];
}

abbrev two_row_device : External ℕ Unit ℕ
two_row_device = record {
  floats = whole;
  ask = λ s words. (suc s, answered two_rows);
  time_parse = λ layout value. none;
  ago = λ n. n;
  thousandth = λ n. n;
  quote = same;
}

abbrev rx : List (PropertyMetric ℕ)
rx =
    simple
      (labelled (codes "interface") (codes "rx") (codes "rx for interface") (codes "interface"))
      (metric_from_string whole) (codes "rx") gauge_value []
    ∷ []

rx-fits : fits 3 (describe_list rx) ≡ true
unfolding describe_list describe description
rx-fits = refl

collect_rows-rows_example :
    collect_rows two_row_device (codes "/interface/print" ∷ []) rx (codes "name" ∷ []) scope 4 ≡ (
      some (rows_errors whole rx (codes "name" ∷ []) scope two_rows.re),
      5,
      rows_sent whole rx (codes "name" ∷ []) scope two_rows.re,
    )
collect_rows-rows_example =
    collect_rows-rows two_row_device rx (codes "name" ∷ []) scope rx-fits
      (codes "/interface/print" ∷ []) 4 5 two_rows refl

abbrev named_if : Bool → Dict Bytes
named_if b = if b then (codes "name", codes "ether1") ∷ [] else []

-- A device with one port that returns its name where it is asked for.
abbrev port_row : Option (List Bytes) → Dict Bytes
port_row none = (codes "name", codes "ether1") ∷ []
port_row (some names) = named_if (contains names (codes "name"))

abbrev port_device : External ℕ Unit ℕ
port_device = record {
  floats = whole;
  ask = λ s words.
      (suc s, answered (record { done = none; re = sentence (port_row (requested words)) ∷ [] }));
  time_parse = λ layout value. none;
  ago = λ n. n;
  thousandth = λ n. n;
  quote = same;
}

port_device-HonoursProplist : HonoursProplist port_device
port_device-HonoursProplist s words = go (requested words)
  where
    named :
        (names : List Bytes) (b : Bool)
        → contains names (codes "name") ≡ b
        → All (λ (e : Bytes × Bytes). contains names e.0 ≡ true) (named_if b)
    named names true e = (e, tt)
    named names false e = tt

    go :
        (o : Option (List Bytes))
        → IsRestricted {E = Unit} o
            (answered (record { done = none; re = sentence (port_row o) ∷ [] }))
    go none = tt
    go (some names) = (named names (contains names (codes "name")) refl, tt)

collect_poe_silent_example : (collect_poe port_device rx scope 0).2 ≡ []
collect_poe_silent_example = collect_poe_silent port_device port_device-HonoursProplist rx scope 0
